-- ===== src/Runtime/Collector/Reach.antt =====
-- The traversal marks what can be reached (libs/runtime/src/kn_runtime.c, __kn_gc_collect).
use kinal.Prelude.{
  ℕ, zero, suc, ◌+◌, ◌≤◌, Bool, true, false, some, List, [], ◌∷◌, length, get_or, ◌≡◌, ◌≢◌, refl,
  sym, ap, subst, ◌∙◌, ◌⊎◌, ◌↔◌, inl, inr, arith,
}
use kinal.Runtime.Collector.{
  KnGcBlock, block_at, gc_find_indexed_block, Marking, is_marked, unmarked_blocks, gc_scan_region,
  traverse, gc_marks,
}
use kinal.Runtime.Collector.Marks.{In, unmarked, Scanned, gc_scan_region-Scanned}

-- A block is reached from a root word, or from a word of a block that is reached.
pub data Reach (index : List KnGcBlock) (roots : List ℕ) : ℕ → Type 0 where
  root : {k : ℕ} (p : ℕ) → In p roots → gc_find_indexed_block index p ≡ some k → Reach index roots k
  step :
      {k : ℕ} (j p : ℕ)
      → Reach index roots j
      → In p (block_at index j).words
      → gc_find_indexed_block index p ≡ some k
      → Reach index roots k

length-unmarked_blocks : (n : ℕ) → length (unmarked_blocks n) ≡ n
unfolding unmarked_blocks
length-unmarked_blocks zero = refl
length-unmarked_blocks (suc n) = ap suc (length-unmarked_blocks n)

unmarked-unmarked_blocks : (n : ℕ) → unmarked (unmarked_blocks n) ≡ n
unfolding unmarked_blocks unmarked
unmarked-unmarked_blocks zero = refl
unmarked-unmarked_blocks (suc n) = omega (arith, unmarked-unmarked_blocks n)

get_or-unmarked_blocks : (n k : ℕ) → get_or (unmarked_blocks n) k false ≡ false
unfolding unmarked_blocks
get_or-unmarked_blocks zero k = refl
get_or-unmarked_blocks (suc n) zero = refl
get_or-unmarked_blocks (suc n) (suc k) = get_or-unmarked_blocks n k

module _ (index : List KnGcBlock) (roots : List ℕ) where
  -- The blocks that the words of a list lead to are marked.
  abbrev Leads : Marking → List ℕ → Type 0
  Leads m ws = (p k : ℕ) → In p ws → gc_find_indexed_block index p ≡ some k → is_marked m k ≡ true

  record Marks (rounds : ℕ) (m : Marking) : Type 0 where
    size : length m.marks ≡ length index
    room : length m.stack + unmarked m.marks ≤ rounds
    few : rounds ≤ length index
    reached : (k : ℕ) → is_marked m k ≡ true → Reach index roots k
    from_roots : Leads m roots
    pending : (k : ℕ) → is_marked m k ≡ true → In k m.stack ⊎ Leads m (block_at index k).words
    stack_marked : (k : ℕ) → In k m.stack → is_marked m k ≡ true

  -- One round of the traversal.
  module _ (n : ℕ) (marks : List Bool) (k : ℕ) (rest : List ℕ)
      (v : Marks (suc n) (record { marks = marks; stack = k ∷ rest })) where
    abbrev popped : Marking
    popped = record { marks = marks; stack = rest }

    abbrev next : Marking
    next = gc_scan_region index (block_at index k).words popped

    scanned : Scanned index (block_at index k).words popped next
    scanned =
        gc_scan_region-Scanned index (block_at index k).words popped v.size
          (omega (arith, v.room, v.few))

    round-Marks : Marks n next
    round-Marks = record {
      size = scanned.size ∙ v.size;
      room = omega (arith, scanned.total, v.room);
      few = omega (arith, v.few);
      reached = λ j e. elim (scanned.fresh j e) [
        | inl old ↦ v.reached j old
        | inr (p, i, f) ↦ Reach.step k p (v.reached k (v.stack_marked k (inl refl))) i f
      ];
      from_roots = λ p j i f. scanned.grows j (v.from_roots p j i f);
      pending = λ j e. elim (scanned.stacked j e) [
        | inl old ↦ elim (v.pending j old) [
          | inl i ↦ elim i [
            | inl here ↦
                inr (subst (λ t. Leads next (block_at index t).words) (sym here) scanned.done)
            | inr later ↦ inl (scanned.holds j later)
          ]
          | inr leads ↦ inr (λ p t i f. scanned.grows t (leads p t i f))
        ]
        | inr i ↦ inl i
      ];
      stack_marked = λ j i. elim (scanned.read_later j i) [
        | inl old ↦ scanned.grows j (v.stack_marked j (inr old))
        | inr e ↦ e
      ];
    }

  -- When the stack is empty, what is marked leads to what is marked.
  record Closed (m : Marking) : Type 0 where
    empty : m.stack ≡ []
    length_kept : length m.marks ≡ length index
    only : (k : ℕ) → is_marked m k ≡ true → Reach index roots k
    from : Leads m roots
    leads : (k : ℕ) → is_marked m k ≡ true → Leads m (block_at index k).words

  closed :
      (n : ℕ) (marks : List Bool)
      → Marks n (record { marks = marks; stack = [] })
      → Closed (record { marks = marks; stack = [] })
  closed n marks v = record {
    empty = refl;
    length_kept = v.size;
    only = v.reached;
    from = v.from_roots;
    leads = λ k e. elim (v.pending k e) [ inl i ↦ absurd i | inr h ↦ h ];
  }

  traverse-Closed :
      (n : ℕ) (marks : List Bool) (stack : List ℕ)
      → Marks n (record { marks = marks; stack = stack })
      → Closed (traverse index n (record { marks = marks; stack = stack }))
  unfolding traverse
  traverse-Closed zero marks [] v = closed 0 marks v
  traverse-Closed zero marks (k ∷ rest) v = absurd (omega (arith, v.room))
  traverse-Closed (suc n) marks [] v = closed (suc n) marks v
  traverse-Closed (suc n) marks (k ∷ rest) v = traverse-Closed n _ _ (round-Marks n marks k rest v)

  Reach-marked : (m : Marking) → Closed m → {k : ℕ} → Reach index roots k → is_marked m k ≡ true
  Reach-marked m c (Reach.root p i f) = c.from p _ i f
  Reach-marked m c (Reach.step j p r i f) = c.leads j (Reach-marked m c r) p _ i f

  start-Marks :
      Marks
        (length index)
        (gc_scan_region index roots (record { marks = unmarked_blocks (length index); stack = [] }))
  start-Marks =
      let n = length index in
      let m : Marking = record { marks = unmarked_blocks n; stack = [] } in
      let size = length-unmarked_blocks n in
      let all = unmarked-unmarked_blocks n in
      let s = gc_scan_region-Scanned index roots m size (omega (arith, all)) in
      let fresh : (k : ℕ) → is_marked m k ≢ true = λ k e. cc (e, get_or-unmarked_blocks n k) in
      record {
        size = s.size ∙ size;
        room = omega (arith, s.total, all);
        few = omega arith;
        reached = λ k e. elim (s.fresh k e) [
          | inl old ↦ absurd (fresh k old)
          | inr (p, i, f) ↦ Reach.root p i f
        ];
        from_roots = s.done;
        pending = λ k e. elim (s.stacked k e) [ inl old ↦ absurd (fresh k old) | inr i ↦ inl i ];
        stack_marked = λ k i. elim (s.read_later k i) [ inl z ↦ absurd z | inr e ↦ e ];
      }

  -- After as many rounds as there are blocks nothing is left on the stack of the traversal. There
  -- is a mark for each block then, set exactly where a way leads from the roots.
  pub gc_marks-Reach :
      ((gc_marks index roots).stack ≡ [])
      × (length (gc_marks index roots).marks ≡ length index)
      × ((k : ℕ) → (is_marked (gc_marks index roots) k ≡ true) ↔ Reach index roots k)
  unfolding gc_marks
  gc_marks-Reach =
      let c = traverse-Closed (length index) _ _ start-Marks in
      (c.empty, c.length_kept, λ k. (c.only k, Reach-marked _ c))
