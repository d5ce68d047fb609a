-- ===== src/Runtime/Text/Results.antt =====
-- The result of replacing, its size, and what joining the parts of a text gives
-- (libs/runtime/src/kn_runtime.c, __kn_text_replace, __kn_text_split and __kn_text_join).
pub mod Sizes
use kinal.Runtime.Text.Results.Sizes.{replaced_any, write_loop-none, size_from}
use kinal.CString.{c_string}
use kinal.Prelude.{
  ℕ, zero, suc, ◌+◌, ◌-◌, ◌*◌, ◌%◌, ◌/◌, ◌^◌, ◌≤◌, ◌<◌, Bool, true, false, ◌&&◌, not, if◌then◌else◌,
  Option, none, some, List, [], ◌∷◌, ◌++◌, append-nil, append_assoc, Bytes, length, get_or, take,
  drop, map, ltb, leb, ◌==◌, ◌≡◌, ◌≢◌, refl, sym, ap, ◌∙◌, arith, Bool-cases, inl, inr,
  length-append, length-drop, subst, take-append-drop,
}
use kinal.Runtime.Text.{
  is_at, count_loop, write_loop, replaced_length, rt_slice_gc, split_loop, join_rest, join_parts,
  join_length, text, text_split, text_replace, rt_strdup_gc,
}
use kinal.Runtime.Text.Matches.{drop-drop, drop_next, is_at-drop}
use native.Mathlib.Nat.{le-div_iff_mul-le}
use kinal.Runtime.Text.Replace.{
  or_empty, between, drop_end, write_loop-drop, join_parts-write_loop, write_loop-drop,
}

-- Putting in what was taken out changes nothing.
write_loop-same :
    (s sep : Bytes) (n i : ℕ)
    → 0 < length sep
    → length s - i < n
    → i ≤ length s
    → write_loop n s sep sep i ≡ drop i s
unfolding write_loop
write_loop-same s sep zero i pos h b = absurd (omega (arith, h))
write_loop-same s sep (suc n) i pos h b = elim (Bool-cases (leb (i + length sep) (length s))) [
  | inl e ↦
      let fits : i + length sep ≤ length s = ground (arith, e) in
      let inside : ltb i (length s) ≡ true = ground (arith, fits, pos) in
      elim (Bool-cases (is_at s i sep)) [
        | inl m ↦
            let rest =
              write_loop-same s sep n (i + length sep) pos (omega (arith, h, fits, pos)) fits in
            rw inside (rw e (rw m (ap (λ t. sep ++ t) rest ∙ sym (is_at-drop s i sep fits m))))
        | inr m ↦
            let rest =
              write_loop-same s sep n (i + 1) pos (omega (arith, h, fits, pos))
                (omega (arith, fits, pos)) in
            rw inside (
              rw e (
                rw m
                  (ap (◌∷◌ (get_or s i 0)) rest ∙ sym (drop_next i s (omega (arith, fits, pos))))))
      ]
  | inr e ↦ write_loop-drop (suc n) s sep sep i h (ground (arith, e))
]

-- The sizes of texts are below 2 ^ 62, and there is memory for `most` bytes.
module _ (gc_alloc : ℕ → Bool) (most : ℕ) (plenty : (n : ℕ) → n ≤ most → gc_alloc n ≡ true)
    (fits : most < 2 ^ 62) where
  strdup_given : (s : Bytes) → length s < most → rt_strdup_gc gc_alloc s ≡ some s
  unfolding rt_strdup_gc
  strdup_given s h = rw (plenty ((length s + 1) % 2 ^ 64) (omega (arith, h))) refl

  written :
      (s sep to : Bytes)
      → 0 < length sep
      → length s < most
      → join_parts to (map or_empty (split_loop gc_alloc (length s + 1) s sep 0 0))
        ≡ write_loop (length s + 1) s sep to 0
  written s sep to pos h =
      join_parts-write_loop gc_alloc s (λ n b. plenty n (omega (arith, b, h)))
        (omega (arith, h, fits)) sep to pos (length s + 1) 0 0 (omega arith) (omega arith)
        (omega arith)

  replace_written :
      (m : Bytes) (q r : Option Bytes)
      → 0 < length (text q)
      → length (text (some m)) < most
      → length (write_loop (length (text (some m)) + 1) (text (some m)) (text q) (text r) 0) < most
      → text_replace gc_alloc (some m) q r
        ≡ some (write_loop (length (text (some m)) + 1) (text (some m)) (text q) (text r) 0)
  unfolding text_replace
  replace_written m q r pos h small =
      let s = text (some m) in
      let c = count_loop (length s + 1) s (text q) 0 in
      let out = write_loop (length s + 1) s (text q) (text r) 0 in
      let some_from : (length (text q) == 0) ≡ false = ground (arith, pos) in
      elim (Bool-cases (c == 0)) [
        | inl z ↦ rw some_from (
            rw z (
              strdup_given s h
              ∙ ap some (
                  sym (
                    write_loop-none s (text q) (text r) pos (length s + 1) 0 (omega arith)
                      (omega arith) (ground (arith, z))))))
        | inr z ↦
            let size =
              replaced_any (length s) (length (text q)) (length (text r)) c (length out)
                (size_from s (text q) (text r) pos) (omega (arith, small, fits)) in
            let given = plenty ((length out + 1) % 2 ^ 64) (omega (arith, small)) in
            rw some_from (rw z (rw size (rw given refl)))
      ]

  -- With memory for `most` bytes, fewer than 2 ^ 62, replacing in a text gives its parts between
  -- the occurrences of a text that is not empty, joined by the other, where neither the text nor
  -- the result has as many bytes.
  pub text_replace-text_split :
      (m : Bytes) (q r : Option Bytes)
      → 0 < length (text q)
      → length (text (some m)) < most
      → length (join_parts (text r) (map or_empty (text_split gc_alloc (some m) q))) < most
      → text_replace gc_alloc (some m) q r
        ≡ some (join_parts (text r) (map or_empty (text_split gc_alloc (some m) q)))
  unfolding text_split
  text_replace-text_split m q r pos h small =
      let some_from : (length (text q) == 0) ≡ false = ground (arith, pos) in
      let split : text_split gc_alloc (some m) q
          ≡ split_loop gc_alloc (length (text (some m)) + 1) (text (some m)) (text q) 0 0 =
        rw some_from refl in
      let same =
        ap (λ ps. join_parts (text r) (map or_empty ps)) split
        ∙ written (text (some m)) (text q) (text r) pos h in
      replace_written m q r pos h (subst (λ t. length t < most) same small) ∙ ap some (sym same)

  -- With memory for more bytes than a text has, fewer than 2 ^ 62, joining the parts that splitting
  -- makes of it by what it was split at, if only by the empty text, gives the text again.
  pub join_parts-text_split :
      (m : Bytes) (q : Option Bytes)
      → length (text (some m)) < most
      → join_parts (text q) (map or_empty (text_split gc_alloc (some m) q)) ≡ text (some m)
  unfolding text_split join_parts join_rest
  join_parts-text_split m q h = elim (Bool-cases (length (text q) == 0)) [
    | inl z ↦ rw z (rw (strdup_given (text (some m)) h) (append-nil (text (some m))))
    | inr z ↦
        let pos : 0 < length (text q) = ground (arith, z) in
        rw z (
          written (text (some m)) (text q) (text q) pos h
          ∙ write_loop-same (text (some m)) (text q) (length (text (some m)) + 1) 0 pos
              (omega arith) (omega arith))
  ]
