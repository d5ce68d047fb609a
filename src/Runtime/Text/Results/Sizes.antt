-- ===== src/Runtime/Text/Results/Sizes.antt =====
-- What replacing writes, and its size (libs/runtime/src/kn_runtime.c, __kn_text_replace).
use kinal.Prelude.{
  ℕ, zero, suc, ◌+◌, ◌-◌, ◌*◌, ◌/◌, ◌^◌, ◌≤◌, ◌<◌, true, false, some, ◌∷◌, Bytes, length, get_or,
  drop, ltb, leb, ◌==◌, ◌≡◌, refl, sym, ap, ◌∙◌, arith, Bool-cases, inl, inr, length-append,
  length-drop,
}
use kinal.Runtime.Text.{is_at, count_loop, write_loop, replaced_length}
use kinal.Runtime.Text.Matches.{drop_next}
use native.Mathlib.Nat.{le-div_iff_mul-le}
use kinal.Runtime.Text.Replace.{write_loop-drop, write_loop-drop}

-- The size computed from the number of matches, for a longer and for a shorter text put in.
replaced_longer :
    (sn fn d c out : ℕ)
    → out + c * fn ≡ sn + c * (fn + d)
    → out < 2 ^ 62
    → replaced_length sn fn (fn + d) c ≡ some out
unfolding replaced_length
replaced_longer sn fn d c out e small =
    let longer : leb fn (fn + d) ≡ true = ground arith in
    let growth : fn + d - fn ≡ d = omega arith in
    let total : out ≡ sn + c * d = omega (arith, e) in
    rw longer (
      rw growth (elim (Bool-cases (d == 0)) [
        | inl z ↦ rw z (ap some (sym total))
        | inr z ↦
            let positive : 0 < d = ground (arith, z) in
            let room : c ≤ (2 ^ 64 - 1 - sn) / d =
              (le-div_iff_mul-le positive).1 (omega (arith, total, small)) in
            let enough : ltb ((2 ^ 64 - 1 - sn) / d) c ≡ false = ground (arith, room) in
            rw z (rw enough (ap some (sym total)))
      ]))

replaced_shorter :
    (sn tn d c out : ℕ)
    → out + c * (tn + suc d) ≡ sn + c * tn
    → replaced_length sn (tn + suc d) tn c ≡ some out
unfolding replaced_length
replaced_shorter sn tn d c out e =
    let shorter : leb (tn + suc d) tn ≡ false = ground arith in
    let loss : tn + suc d - tn ≡ suc d = omega arith in
    rw shorter (rw loss (ap some (omega (arith, e))))

pub replaced_any :
    (sn fn tn c out : ℕ)
    → out + c * fn ≡ sn + c * tn
    → out < 2 ^ 62
    → replaced_length sn fn tn c ≡ some out
replaced_any sn fn tn c out e small = elim (Bool-cases (leb fn tn)) [
  | inl l ↦
      let split : tn ≡ fn + (tn - fn) = ground (arith, l) in
      ap (λ t. replaced_length sn fn t c) split
      ∙ replaced_longer sn fn (tn - fn) c out (e ∙ ap (λ t. sn + c * t) split) small
  | inr l ↦
      let split : fn ≡ tn + suc (fn - tn - 1) = ground (arith, l) in
      ap (λ t. replaced_length sn t tn c) split
      ∙ replaced_shorter sn tn (fn - tn - 1) c out (ap (λ t. out + c * t) (sym split) ∙ e)
]

module _ (s from to : Bytes) (pos : 0 < length from) where
  -- The bytes written, by the number of matches.
  length-write_loop :
      (n i : ℕ)
      → i ≤ length s
      → length s - i < n
      → length (write_loop n s from to i) + count_loop n s from i * length from
        ≡ (length s - i) + count_loop n s from i * length to
  unfolding write_loop count_loop
  length-write_loop zero i b h = absurd (omega (arith, h))
  length-write_loop (suc n) i b h = elim (Bool-cases (leb (i + length from) (length s))) [
    | inl e ↦
        let fits : i + length from ≤ length s = ground (arith, e) in
        let inside : ltb i (length s) ≡ true = ground (arith, fits, pos) in
        elim (Bool-cases (is_at s i from)) [
          | inl m ↦
              let ih = length-write_loop n (i + length from) fits (omega (arith, h, fits, pos)) in
              let c = count_loop n s from (i + length from) in
              let size = length-append to (write_loop n s from to (i + length from)) in
              rw inside (rw e (rw m (omega (arith, ih, size, fits))))
          | inr m ↦
              let ih =
                length-write_loop n (i + 1) (omega (arith, fits, pos))
                  (omega (arith, h, fits, pos)) in
              rw inside (rw e (rw m (omega (arith, ih, fits, pos))))
        ]
    | inr e ↦
        let tail = ap (λ t. length t) (write_loop-drop (suc n) s from to i h (ground (arith, e))) in
        let none_left : count_loop (suc n) s from i ≡ 0 = rw e refl in
        rw none_left (omega (arith, tail, length-drop i s))
  ]

  -- Nothing is replaced where nothing matches.
  pub write_loop-none :
      (n i : ℕ)
      → i ≤ length s
      → length s - i < n
      → count_loop n s from i ≡ 0
      → write_loop n s from to i ≡ drop i s
  unfolding write_loop count_loop
  write_loop-none zero i b h z = absurd (omega (arith, h))
  write_loop-none (suc n) i b h z = elim (Bool-cases (leb (i + length from) (length s))) [
    | inl e ↦
        let fits : i + length from ≤ length s = ground (arith, e) in
        let inside : ltb i (length s) ≡ true = ground (arith, fits, pos) in
        elim (Bool-cases (is_at s i from)) [
          | inl m ↦ absurd (ground (arith, z, e, m))
          | inr m ↦
              let rest =
                write_loop-none n (i + 1) (omega (arith, fits, pos)) (omega (arith, h, fits, pos))
                  (ground (arith, z, e, m)) in
              rw inside (
                rw e (
                  rw m (
                    ap (◌∷◌ (get_or s i 0)) rest ∙ sym (drop_next i s (omega (arith, fits, pos))))))
        ]
    | inr e ↦ write_loop-drop (suc n) s from to i h (ground (arith, e))
  ]

  pub size_from :
      length (write_loop (length s + 1) s from to 0)
        + count_loop (length s + 1) s from 0 * length from
      ≡ length s + count_loop (length s + 1) s from 0 * length to
  size_from = omega (arith, length-write_loop (length s + 1) 0 (omega arith) (omega arith))
