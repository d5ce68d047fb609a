-- ===== src/Runtime/Text/Replace.antt =====
-- Splitting, replacing and joining (libs/runtime/src/kn_runtime.c, __kn_text_split,
-- __kn_text_replace and __kn_text_join).
use kinal.Prelude.{
  ℕ, zero, suc, ◌+◌, ◌-◌, ◌%◌, ◌^◌, ◌≤◌, ◌<◌, Bool, true, false, Option, none, some, List, [], ◌∷◌,
  ◌++◌, append-nil, append_assoc, Bytes, length, get_or, take, drop, map, ltb, leb, ◌≡◌, refl, sym,
  ap, ◌∙◌, arith, Bool-cases, inl, inr, length-drop, take-append-drop,
}
use kinal.Runtime.Text.{is_at, write_loop, rt_slice_gc, split_loop, join_rest, join_parts}
use kinal.Runtime.Text.Matches.{drop-drop, drop_next}

-- A part that was not allocated reads as the empty text.
abbrev pub or_empty : Option Bytes → Bytes
or_empty none = []
or_empty (some b) = b

-- What stands between two offsets.
abbrev pub between : Bytes → ℕ → ℕ → Bytes
between s start i = take (i - start) (drop start s)

take_one_more :
    (n : ℕ) (xs : Bytes) → n < length xs → take (n + 1) xs ≡ take n xs ++ (get_or xs n 0 ∷ [])
take_one_more n [] h = absurd (omega (arith, h))
take_one_more zero (x ∷ xs) h = refl
take_one_more (suc n) (x ∷ xs) h =
    let e : suc n + 1 ≡ suc (n + 1) = omega arith in
    ap (λ k. take k (x ∷ xs)) e ∙ ap (◌∷◌ x) (take_one_more n xs (omega (arith, h)))

pub get_or-drop : (n i : ℕ) (s : Bytes) → get_or (drop n s) i 0 ≡ get_or s (n + i) 0
get_or-drop zero i s = ap (λ k. get_or s k 0) (omega arith)
get_or-drop (suc n) i [] = refl
get_or-drop (suc n) i (c ∷ s) =
    let e : suc n + i ≡ suc (n + i) = omega arith in
    get_or-drop n i s ∙ sym (ap (λ k. get_or (c ∷ s) k 0) e)

between_next :
    (s : Bytes) (start i : ℕ)
    → start ≤ i
    → i < length s
    → between s start (i + 1) ≡ between s start i ++ (get_or s i 0 ∷ [])
between_next s start i le h =
    let e : i + 1 - start ≡ i - start + 1 = omega (arith, le) in
    let at : start + (i - start) ≡ i = omega (arith, le) in
    ap (λ k. take k (drop start s)) e
    ∙ take_one_more (i - start) (drop start s) (omega (arith, length-drop start s, le, h))
    ∙ ap (λ c. between s start i ++ (c ∷ []))
        (get_or-drop start (i - start) s ∙ ap (λ k. get_or s k 0) at)

drop_between : (s : Bytes) (start i : ℕ) → start ≤ i → drop start s ≡ between s start i ++ drop i s
drop_between s start i le =
    let at : start + (i - start) ≡ i = omega (arith, le) in
    sym (take-append-drop (i - start) (drop start s))
    ∙ ap (λ t. between s start i ++ t) (drop-drop start (i - start) s ∙ ap (λ k. drop k s) at)

pub drop_end : (i : ℕ) (s : Bytes) → length s ≤ i → drop i s ≡ []
drop_end zero [] h = refl
drop_end zero (c ∷ s) h = absurd (omega (arith, h))
drop_end (suc i) [] h = refl
drop_end (suc i) (c ∷ s) h = drop_end i s (omega (arith, h))

-- What is left where no match fits any more.
pub write_loop-drop :
    (n : ℕ) (s from to : Bytes) (i : ℕ)
    → length s - i < n
    → length s < i + length from
    → write_loop n s from to i ≡ drop i s
unfolding write_loop
write_loop-drop zero s from to i h short = absurd (omega (arith, h))
write_loop-drop (suc n) s from to i h short = elim (Bool-cases (ltb i (length s))) [
  | inl e ↦
      let inside : i < length s = ground (arith, e) in
      let none_fits : leb (i + length from) (length s) ≡ false = ground (arith, short) in
      rw e (
        rw none_fits (
          ap (◌∷◌ (get_or s i 0))
            (write_loop-drop n s from to (i + 1) (omega (arith, h, inside)) (omega (arith, short)))
          ∙ sym (drop_next i s inside)))
  | inr e ↦ rw e (sym (drop_end i s (ground (arith, e))))
]

module _ (gc_alloc : ℕ → Bool) (s : Bytes) (plenty : (n : ℕ) → n ≤ length s + 1 → gc_alloc n ≡ true)
    (fits : length s < 2 ^ 62) where
  pub slice_between :
      (start i : ℕ)
      → start ≤ i
      → i ≤ length s
      → rt_slice_gc gc_alloc s start (i - start) ≡ some (between s start i)
  unfolding rt_slice_gc
  slice_between start i le h =
      let inside : ltb (length s) start ≡ false = ground (arith, le, h) in
      let short : ltb (length s) ((start + (i - start)) % 2 ^ 64) ≡ false =
        ground (arith, le, h, fits) in
      let given : gc_alloc ((i - start + 1) % 2 ^ 64) ≡ true =
        plenty ((i - start + 1) % 2 ^ 64) (omega (arith, h)) in
      rw inside (rw short (rw given refl))

  -- There is always a last part.
  split_loop_some :
      (n : ℕ) (sep : Bytes) (start i : ℕ)
      → length s - i < n
      → 0 < length sep
      → (p : Option Bytes) × (ps : List (Option Bytes)) × (split_loop gc_alloc n s sep start i
          ≡ p ∷ ps)
  unfolding split_loop
  split_loop_some zero sep start i h pos = absurd (omega (arith, h))
  split_loop_some (suc n) sep start i h pos = elim (Bool-cases (leb (i + length sep) (length s))) [
    | inl e ↦ elim (Bool-cases (is_at s i sep)) [
      | inl m ↦ (
        rt_slice_gc gc_alloc s start (i - start),
        split_loop gc_alloc n s sep (i + length sep) (i + length sep),
        rw e (rw m refl),
      )
      | inr m ↦
          let inside : i + length sep ≤ length s = ground (arith, e) in
          let (p, ps, q) =
            split_loop_some n sep start (i + 1) (omega (arith, h, inside, pos)) pos in
          (p, ps, rw e (rw m q))
    ]
    | inr e ↦ (rt_slice_gc gc_alloc s start (length s - start), [], rw e refl)
  ]

  module _ (sep to : Bytes) (pos : 0 < length sep) where
    abbrev parts : ℕ → ℕ → ℕ → List Bytes
    parts n start i = map or_empty (split_loop gc_alloc n s sep start i)

    join_rest-parts :
        (n start i : ℕ)
        → length s - i < n
        → join_rest to (parts n start i) ≡ to ++ join_parts to (parts n start i)
    unfolding join_rest join_parts
    join_rest-parts n start i h = let (p, ps, q) = split_loop_some n sep start i h pos in rw q refl

    last_part :
        (n start i : ℕ)
        → start ≤ length s
        → leb (i + length sep) (length s) ≡ false
        → parts (suc n) start i ≡ between s start (length s) ∷ []
    unfolding split_loop
    last_part n start i le e =
        let slice = slice_between start (length s) le (omega arith) in rw e (rw slice refl)

    -- Joining the parts from `i` on writes what replacing writes.
    pub join_parts-write_loop :
        (n start i : ℕ)
        → start ≤ i
        → i ≤ length s
        → length s - i < n
        → join_parts to (parts n start i) ≡ between s start i ++ write_loop n s sep to i
    unfolding split_loop write_loop join_parts join_rest
    join_parts-write_loop zero start i le b h = absurd (omega (arith, h))
    join_parts-write_loop (suc n) start i le b h =
        elim (Bool-cases (leb (i + length sep) (length s))) [
          | inl e ↦
              let fits' : i + length sep ≤ length s = ground (arith, e) in
              let inside : ltb i (length s) ≡ true = ground (arith, fits', pos) in
              elim (Bool-cases (is_at s i sep)) [
                | inl m ↦
                    let next = i + length sep in
                    let slice = slice_between start i le b in
                    let less : length s - next < n = omega (arith, h, fits', pos) in
                    let ih = join_parts-write_loop n next next (omega arith) fits' less in
                    let no_width : next - next ≡ 0 = omega arith in
                    let zero_wide : between s next next ≡ [] =
                      ap (λ k. take k (drop next s)) no_width in
                    rw e (
                      rw m (
                        rw slice (
                          rw inside (
                            ap (λ t. between s start i ++ t)
                              (join_rest-parts n next next less
                                ∙ ap (λ t. to ++ t)
                                    (ih ∙ ap (λ t. t ++ write_loop n s sep to next) zero_wide))))))
                | inr m ↦ rw e (
                    rw m (
                      rw inside (
                        join_parts-write_loop n start (i + 1) (omega (arith, le))
                          (omega (arith, fits', pos)) (omega (arith, h, fits', pos))
                        ∙ ap (λ t. t ++ write_loop n s sep to (i + 1))
                            (between_next s start i le (omega (arith, fits', pos)))
                        ∙ append_assoc (between s start i) (get_or s i 0 ∷ [])
                            (write_loop n s sep to (i + 1)))))
              ]
          | inr e ↦
              ap (join_parts to) (last_part n start i (omega (arith, le, b)) e)
              ∙ append-nil (between s start (length s))
              ∙ sym (append-nil (between s start (length s)))
              ∙ ap (λ t. between s start (length s) ++ t)
                  (sym (drop_end (length s) s (omega arith)))
              ∙ sym (drop_between s start (length s) (omega (arith, le, b)))
              ∙ drop_between s start i le
              ∙ ap (λ t. between s start i ++ t)
                  (sym (write_loop-drop (suc n) s sep to i h (ground (arith, e))))
        ]
