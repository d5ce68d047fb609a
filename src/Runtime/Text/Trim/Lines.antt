-- ===== src/Runtime/Text/Trim/Lines.antt =====
-- The lines of a text (libs/runtime/src/kn_runtime.c, __kn_text_lines).
use kinal.Prelude.{
  ℕ, zero, suc, ◌+◌, ◌-◌, ◌^◌, ◌≤◌, ◌<◌, Bool, true, false, if◌then◌else◌, Option, some, [], ◌∷◌,
  Bytes, length, get_or, take, drop, map, ltb, leb, ◌==◌, ◌≡◌, refl, sym, ap, ◌∙◌, arith,
  Bool-cases, inl, inr, length-drop,
}
use kinal.Runtime.Text.{text, is_at, rt_memcmp, rt_slice_gc, split_loop, text_split}
use kinal.Runtime.Text.Matches.{drop_next}
use kinal.Runtime.Text.Replace.{or_empty, between, slice_between, get_or-drop}
use kinal.Runtime.Text.Trim.{line_part, lines_loop, text_lines}

-- A text without a carriage return at its end.
abbrev pub chomp : Bytes → Bytes
chomp [] = []
chomp (c ∷ []) = if c == 13 then [] else c ∷ []
chomp (c ∷ d ∷ t) = c ∷ chomp (d ∷ t)

abbrev newline : Bytes
newline = 10 ∷ []

chomp-take :
    (n : ℕ) (t : Bytes)
    → n < length t
    → chomp (take (suc n) t) ≡ (if get_or t n 0 == 13 then take n t else take (suc n) t)
chomp-take n [] h = absurd (omega (arith, h))
chomp-take zero (c ∷ t) h = refl
chomp-take (suc n) (c ∷ []) h = absurd (omega (arith, h))
chomp-take (suc n) (c ∷ d ∷ t) h =
    let ih = chomp-take n (d ∷ t) (omega (arith, h)) in
    ap (◌∷◌ c) ih
    ∙ elim (Bool-cases (get_or (d ∷ t) n 0 == 13)) [ inl e ↦ rw e refl | inr e ↦ rw e refl ]

is_at-newline : (s : Bytes) (i : ℕ) → i < length s → is_at s i newline ≡ (get_or s i 0 == 10)
unfolding is_at rt_memcmp
is_at-newline s i h =
    rw (drop_next i s h, is_at)
      (elim (Bool-cases (get_or s i 0 == 10)) [
        | inl e ↦ ground (arith, e)
        | inr e ↦ ground (arith, e)
      ])

module _ (gc_alloc : ℕ → Bool) (s : Bytes) (plenty : (n : ℕ) → n ≤ length s + 1 → gc_alloc n ≡ true)
    (fits : length s < 2 ^ 62) where
  line_part-chomp :
      (start i : ℕ)
      → start ≤ i
      → i ≤ length s
      → or_empty (line_part gc_alloc s start i) ≡ chomp (between s start i)
  unfolding line_part
  line_part-chomp start i le h = elim (Bool-cases (ltb 0 (i - start))) [
    | inr e ↦
        let none_left : i - start ≡ 0 = ground (arith, e) in
        rw e (
          ap or_empty (slice_between gc_alloc s plenty fits start i le h)
          ∙ ap (λ k. take k (drop start s)) none_left
          ∙ sym (ap (λ k. chomp (take k (drop start s))) none_left))
    | inl e ↦
        let n = i - start - 1 in
        let len : i - start ≡ suc n = ground (arith, e) in
        let at : start + n ≡ start + (i - start) - 1 = ground (arith, e) in
        let there : get_or (drop start s) n 0 ≡ get_or s (start + (i - start) - 1) 0 =
          get_or-drop start n s ∙ ap (λ k. get_or s k 0) at in
        let chomped : chomp (between s start i) ≡ (
            if get_or (drop start s) n 0 == 13
            then take n (drop start s)
            else take (suc n) (drop start s)) =
          ap (λ k. chomp (take k (drop start s))) len
          ∙ chomp-take n (drop start s) (ground (arith, e, h, length-drop start s)) in
        elim (Bool-cases (get_or s (start + (i - start) - 1) 0 == 13)) [
          | inl d ↦
              let less : (i - 1) - start ≡ n = ground (arith, e) in
              let slice =
                ap (rt_slice_gc gc_alloc s start) (sym less)
                ∙ slice_between gc_alloc s plenty fits start (i - 1) (ground (arith, e))
                    (omega (arith, h)) in
              rw e (
                rw d (
                  ap or_empty slice
                  ∙ ap (λ k. take k (drop start s)) less
                  ∙ sym (chomped ∙ rw there (rw d refl))))
          | inr d ↦ rw e (
              rw d (
                ap or_empty (slice_between gc_alloc s plenty fits start i le h)
                ∙ ap (λ k. take k (drop start s)) len
                ∙ sym (chomped ∙ rw there (rw d refl))))
        ]
  ]

  lines_loop-split_loop :
      (n start i : ℕ)
      → start ≤ i
      → i ≤ length s
      → map or_empty (lines_loop gc_alloc n s start i)
        ≡ map chomp (map or_empty (split_loop gc_alloc n s newline start i))
  unfolding lines_loop split_loop
  lines_loop-split_loop zero start i le h = refl
  lines_loop-split_loop (suc n) start i le h = elim (Bool-cases (ltb i (length s))) [
    | inl e ↦
        let inside : i < length s = ground (arith, e) in
        let fits' : leb (i + 1) (length s) ≡ true = ground (arith, e) in
        let same = is_at-newline s i inside in
        elim (Bool-cases (get_or s i 0 == 10)) [
          | inl d ↦ rw e (
              rw fits' (
                rw same (
                  rw d (
                    ap (λ p. p ∷ map or_empty (lines_loop gc_alloc n s (i + 1) (i + 1)))
                      (line_part-chomp start i le h
                        ∙ ap (λ p. chomp (or_empty p))
                            (sym (slice_between gc_alloc s plenty fits start i le h)))
                    ∙ ap (◌∷◌ (chomp (or_empty (rt_slice_gc gc_alloc s start (i - start))))) (
                        lines_loop-split_loop n (i + 1) (i + 1) (omega arith)
                          (omega (arith, inside)))))))
          | inr d ↦ rw e (
              rw fits' (
                rw same (
                  rw d (
                    lines_loop-split_loop n start (i + 1) (omega (arith, le))
                      (omega (arith, inside))))))
        ]
    | inr e ↦
        let past : leb (i + 1) (length s) ≡ false = ground (arith, e) in
        let begun : leb start (length s) ≡ true = ground (arith, le, h) in
        let end : start ≤ length s = omega (arith, le, h) in
        rw e (
          rw past (
            rw begun (
              ap (λ p. p ∷ [])
                (line_part-chomp start (length s) end (omega arith)
                  ∙ ap (λ p. chomp (or_empty p))
                      (sym (
                        slice_between gc_alloc s plenty fits start (length s) end
                          (omega arith)))))))
  ]

-- With memory for more bytes than the text has, fewer than 2 ^ 62, the lines of a text are its
-- parts between the newlines, each without a carriage return at its end.
pub text_lines-text_split :
    (gc_alloc : ℕ → Bool) (most : ℕ)
    → ((n : ℕ) → n ≤ most → gc_alloc n ≡ true)
    → most < 2 ^ 62
    → (q : Option Bytes) → length (text q) < most
    → map or_empty (text_lines gc_alloc q)
      ≡ map chomp (map or_empty (text_split gc_alloc q (some newline)))
unfolding text_lines text_split text split_loop
text_lines-text_split gc_alloc most plenty fits q h =
    lines_loop-split_loop gc_alloc (text q) (λ n p. plenty n (omega (arith, p, h)))
      (omega (arith, h, fits)) (length (text q) + 1) 0 0 (omega arith) (omega arith)
