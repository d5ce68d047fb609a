-- ===== src/Runtime/Collector/Marks.antt =====
-- What marking the blocks of some words does (libs/runtime/src/kn_runtime.c, gc_mark_ptr and
-- gc_scan_region).
use kinal.Prelude.{
  ℕ, zero, suc, ◌+◌, ◌-◌, ◌/◌, ◌≤◌, ◌<◌, Bool, true, false, if◌then◌else◌, none, some, List, [],
  ◌∷◌, length, get_or, set, ltb, leb, ◌==◌, ◌≡◌, refl, sym, ap, subst, ◌∙◌, ◌⊎◌, inl, inr, arith,
  Bool-cases, Option-cases, ==_iff, length-set, get_or-set_self, get_or-set_ne,
}
use kinal.Runtime.Collector.{
  KnGcBlock, block_at, search_start, gc_find_indexed_block, Marking, is_marked, gc_mark_ptr,
  gc_scan_region,
}

abbrev pub In : ℕ → List ℕ → Type 0
In k [] = ⊥
In k (x ∷ xs) = (k ≡ x) ⊎ In k xs

-- The blocks that are not marked.
unfoldable pub unmarked : List Bool → ℕ
unmarked [] = 0
unmarked (b ∷ bs) = (if b then 0 else 1) + unmarked bs

unmarked-set :
    (bs : List Bool) (k : ℕ)
    → k < length bs
    → get_or bs k false ≡ false
    → unmarked (set bs k true) + 1 ≡ unmarked bs
unfolding unmarked
unmarked-set [] k h e = absurd (omega (arith, h))
unmarked-set (b ∷ bs) zero h e = rw e (omega arith)
unmarked-set (b ∷ bs) (suc k) h e = omega (arith, unmarked-set bs k (omega (arith, h)) e)

search_start-bound :
    (n : ℕ) (index : List KnGcBlock) (value low high : ℕ)
    → low ≤ high
    → search_start n index value low high ≤ high
unfolding search_start
search_start-bound zero index value low high h = h
search_start-bound (suc n) index value low high h =
    let middle = low + (high - low) / 2 in
    elim (Bool-cases (ltb low high)) [
      | inr e ↦ rw e h
      | inl e ↦
          let lt : low < high = ground (arith, e) in
          elim (Bool-cases (leb (block_at index middle).ptr value)) [
            | inl d ↦
                rw e (rw d (search_start-bound n index value (middle + 1) high (omega (arith, lt))))
            | inr d ↦
                let ih = search_start-bound n index value low middle (omega arith) in
                rw e (rw d (omega (arith, ih, lt)))
          ]
    ]

-- A block that is found is one of the index.
pub gc_find-bound :
    (index : List KnGcBlock) (p k : ℕ) → gc_find_indexed_block index p ≡ some k → k < length index
unfolding gc_find_indexed_block
gc_find-bound index p k h =
    ground (arith, h, search_start-bound (length index) index p 0 (length index) (omega arith))

-- What marking leaves: how `m'` follows from `m` when the words `ws` have been read.
pub record Scanned (index : List KnGcBlock) (ws : List ℕ) (m m' : Marking) : Type 0 where
  pub size : length m'.marks ≡ length m.marks
  pub grows : (k : ℕ) → is_marked m k ≡ true → is_marked m' k ≡ true
  pub done : (p k : ℕ) → In p ws → gc_find_indexed_block index p ≡ some k → is_marked m' k ≡ true
  pub fresh :
      (k : ℕ)
      → is_marked m' k ≡ true
      → (is_marked m k ≡ true) ⊎ ((p : ℕ) × In p ws × (gc_find_indexed_block index p ≡ some k))
  pub stacked : (k : ℕ) → is_marked m' k ≡ true → (is_marked m k ≡ true) ⊎ In k m'.stack
  pub holds : (k : ℕ) → In k m.stack → In k m'.stack
  pub read_later : (k : ℕ) → In k m'.stack → In k m.stack ⊎ (is_marked m' k ≡ true)
  pub total : length m'.stack + unmarked m'.marks ≡ length m.stack + unmarked m.marks

module _ (index : List KnGcBlock) where
  nothing :
      (ws : List ℕ) (m : Marking)
      → ((p k : ℕ) → In p ws → gc_find_indexed_block index p ≡ some k → is_marked m k ≡ true)
      → Scanned index ws m m
  nothing ws m h = record {
    size = refl;
    grows = λ k e. e;
    done = h;
    fresh = λ k e. inl e;
    stacked = λ k e. inl e;
    holds = λ k e. e;
    read_later = λ k e. inl e;
    total = refl;
  }

  -- A block that is found for the first time.
  module _ (p k : ℕ) (m : Marking) (found : gc_find_indexed_block index p ≡ some k)
      (new : is_marked m k ≡ false) (size : length m.marks ≡ length index)
      (room : length m.stack + unmarked m.marks ≤ length index) where
    inside : k < length m.marks
    inside = omega (arith, gc_find-bound index p k found, size)

    abbrev pub marked_next : Marking
    marked_next = record { marks = set m.marks k true; stack = k ∷ m.stack }

    mark_step : gc_mark_ptr index p m ≡ marked_next
    unfolding gc_mark_ptr
    mark_step =
        let free : ltb (length m.stack) (length index) ≡ true =
          ground (arith, unmarked-set m.marks k inside new, room) in
        rw (found, gc_mark_ptr) (rw new (rw free refl))

    marks_at : (j : ℕ) → is_marked marked_next j ≡ (if k == j then true else is_marked m j)
    marks_at j = elim (Bool-cases (k == j)) [
      | inl e ↦ rw e (rw (← (==_iff k j).0 e) (get_or-set_self m.marks k true false inside))
      | inr e ↦ rw e (get_or-set_ne m.marks k j true false (λ q. absurd (ground (arith, e, q))))
    ]

    marked_next-Scanned : Scanned index (p ∷ []) m marked_next
    marked_next-Scanned = record {
      size = length-set m.marks k true;
      grows = λ j e. ground (arith, marks_at j, e);
      done = λ q j i f.
          let same : j ≡ k = elim i [
            | inl w ↦ cc (found, f, ap (gc_find_indexed_block index) w)
            | inr z ↦ absurd z
          ] in
          ground (arith, marks_at j, same);
      fresh = λ j e. elim (Bool-cases (k == j)) [
        | inl q ↦ inr (p, inl refl, found ∙ ap some ((==_iff k j).0 q))
        | inr q ↦ inl (ground (arith, marks_at j, e, q))
      ];
      stacked = λ j e. elim (Bool-cases (k == j)) [
        | inl q ↦ inr (inl (sym ((==_iff k j).0 q)))
        | inr q ↦ inl (ground (arith, marks_at j, e, q))
      ];
      holds = λ j e. inr e;
      read_later = λ j e. elim e [
        | inl w ↦ inr (let same : j ≡ k = w in ground (arith, marks_at j, same))
        | inr w ↦ inl w
      ];
      total = omega (arith, unmarked-set m.marks k inside new);
    }

  mark_none :
      (p : ℕ) (m : Marking) → gc_find_indexed_block index p ≡ none → gc_mark_ptr index p m ≡ m
  unfolding gc_mark_ptr
  mark_none p m e = rw (e, gc_mark_ptr) refl

  mark_old :
      (p k : ℕ) (m : Marking)
      → gc_find_indexed_block index p ≡ some k
      → is_marked m k ≡ true
      → gc_mark_ptr index p m ≡ m
  unfolding gc_mark_ptr
  mark_old p k m e d = rw (e, gc_mark_ptr) (rw d refl)

  gc_mark_ptr-Scanned :
      (p : ℕ) (m : Marking)
      → length m.marks ≡ length index
      → length m.stack + unmarked m.marks ≤ length index
      → Scanned index (p ∷ []) m (gc_mark_ptr index p m)
  gc_mark_ptr-Scanned p m size room = elim (Option-cases (gc_find_indexed_block index p)) [
    | inl none_there ↦ subst (Scanned index (p ∷ []) m) (sym (mark_none p m none_there)) (
        nothing (p ∷ []) m (λ q j i f. elim i [
          | inl w ↦ absurd (cc (none_there, f, ap (gc_find_indexed_block index) w))
          | inr z ↦ absurd z
        ]))
    | inr (k, found) ↦ elim (Bool-cases (is_marked m k)) [
      | inl old ↦ subst (Scanned index (p ∷ []) m) (sym (mark_old p k m found old)) (
          nothing (p ∷ []) m (λ q j i f. elim i [
            | inl w ↦
                let same : k ≡ j = cc (found, f, ap (gc_find_indexed_block index) w) in
                subst (λ t. is_marked m t ≡ true) same old
            | inr z ↦ absurd z
          ]))
      | inr new ↦
          subst (Scanned index (p ∷ []) m) (sym (mark_step p k m found new size room))
            (marked_next-Scanned p k m found new size room)
    ]
  ]

  -- Reading one word and then others.
  after :
      (p : ℕ) (ps : List ℕ) (m n r : Marking)
      → Scanned index (p ∷ []) m n
      → Scanned index ps n r
      → Scanned index (p ∷ ps) m r
  after p ps m n r s t = record {
    size = t.size ∙ s.size;
    grows = λ k e. t.grows k (s.grows k e);
    done = λ q k i f. elim i [ inl w ↦ t.grows k (s.done q k (inl w) f) | inr w ↦ t.done q k w f ];
    fresh = λ k e. elim (t.fresh k e) [
      | inl old ↦ elim (s.fresh k old) [
        | inl older ↦ inl older
        | inr (q, i, f) ↦ inr (q, elim i [ inl w ↦ inl w | inr z ↦ absurd z ], f)
      ]
      | inr (q, i, f) ↦ inr (q, inr i, f)
    ];
    stacked = λ k e. elim (t.stacked k e) [
      | inl old ↦ elim (s.stacked k old) [ inl older ↦ inl older | inr i ↦ inr (t.holds k i) ]
      | inr i ↦ inr i
    ];
    holds = λ k i. t.holds k (s.holds k i);
    read_later = λ k i. elim (t.read_later k i) [
      | inl e ↦ elim (s.read_later k e) [ inl d ↦ inl d | inr d ↦ inr (t.grows k d) ]
      | inr e ↦ inr e
    ];
    total = t.total ∙ s.total;
  }

  pub gc_scan_region-Scanned :
      (ws : List ℕ) (m : Marking)
      → length m.marks ≡ length index
      → length m.stack + unmarked m.marks ≤ length index
      → Scanned index ws m (gc_scan_region index ws m)
  unfolding gc_scan_region
  gc_scan_region-Scanned [] m size room = nothing [] m (λ p k i f. absurd i)
  gc_scan_region-Scanned (p ∷ ps) m size room =
      let s = gc_mark_ptr-Scanned p m size room in
      after p ps m (gc_mark_ptr index p m) _ s (
        gc_scan_region-Scanned ps (gc_mark_ptr index p m) (s.size ∙ size)
          (omega (arith, s.total, room)))
