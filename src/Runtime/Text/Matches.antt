-- ===== src/Runtime/Text/Matches.antt =====
-- Where a text stands in another (libs/runtime/src/kn_runtime.c, rt_memcmp and the searches).
use Prim.Native.Nat.{Ordering}
use kinal.Prelude.{
  ℕ, zero, suc, ◌+◌, ◌≤◌, ◌<◌, Bool, true, false, [], ◌∷◌, ◌++◌, Bytes, length, get_or, take, drop,
  ◌==◌, ◌≡◌, refl, sym, ap, ◌∙◌, inl, inr, arith, Bool-cases, length-drop, take-append-drop,
}
use kinal.Runtime.Text.{rt_memcmp, is_at}

drop_nil : (n : ℕ) → drop {A = ℕ} n [] ≡ []
drop_nil zero = refl
drop_nil (suc n) = refl

pub drop-drop : (m n : ℕ) (s : Bytes) → drop n (drop m s) ≡ drop (m + n) s
drop-drop zero n s = ap (λ k. drop k s) (omega arith)
drop-drop (suc m) n [] = drop_nil n ∙ sym (drop_nil (suc m + n))
drop-drop (suc m) n (c ∷ s) =
    let e : suc m + n ≡ suc (m + n) = omega arith in
    drop-drop m n s ∙ sym (ap (λ k. drop k (c ∷ s)) e)

pub drop_next : (i : ℕ) (s : Bytes) → i < length s → drop i s ≡ get_or s i 0 ∷ drop (i + 1) s
drop_next i [] h = absurd (omega (arith, h))
drop_next zero (c ∷ s) h = refl
drop_next (suc i) (c ∷ s) h =
    let e : suc i + 1 ≡ suc (i + 1) = omega arith in
    drop_next i s (omega (arith, h)) ∙ ap (λ k. get_or s i 0 ∷ drop k (c ∷ s)) (sym e)

-- Texts whose first bytes compare equal begin alike, and the other way round.
rt_memcmp-take :
    (x y : Bytes)
    → length y ≤ length x
    → rt_memcmp x y (length y) ≡ Ordering.eq
    → take (length y) x ≡ y
unfolding rt_memcmp
rt_memcmp-take x [] h e = refl
rt_memcmp-take [] (d ∷ y) h e = absurd (omega (arith, h))
rt_memcmp-take (c ∷ x) (d ∷ y) h e = elim (Bool-cases (c == d)) [
  | inl q ↦
      let same : c ≡ d = ground (arith, q) in
      let rest = rt_memcmp-take x y (omega (arith, h)) (ground (arith, e, q)) in cc (same, rest)
  | inr q ↦ absurd (ground (arith, e, q))
]

rt_memcmp-append : (y r : Bytes) → rt_memcmp (y ++ r) y (length y) ≡ Ordering.eq
unfolding rt_memcmp
rt_memcmp-append [] r = refl
rt_memcmp-append (d ∷ y) r = ground (arith, rt_memcmp-append y r)

eq_test :
    (o : Ordering)
    → (elim o as (λ b. Bool) [ Ordering.eq ↦ true | _ ↦ false ]) ≡ true
    → o ≡ Ordering.eq
eq_test Ordering.lt h = cc
eq_test Ordering.eq h = refl
eq_test Ordering.gt h = cc

-- A match splits what stands at the offset.
pub is_at-drop :
    (s : Bytes) (i : ℕ) (sub : Bytes)
    → i + length sub ≤ length s
    → is_at s i sub ≡ true
    → drop i s ≡ sub ++ drop (i + length sub) s
unfolding is_at
is_at-drop s i sub h e =
    let room : length sub ≤ length (drop i s) = omega (arith, h, length-drop i s) in
    let begins = rt_memcmp-take (drop i s) sub room (eq_test _ e) in
    sym (take-append-drop (length sub) (drop i s))
    ∙ ap (λ t. t ++ drop (length sub) (drop i s)) begins
    ∙ ap (λ t. sub ++ t) (drop-drop i (length sub) s)

pub drop-is_at : (s : Bytes) (i : ℕ) (sub r : Bytes) → drop i s ≡ sub ++ r → is_at s i sub ≡ true
unfolding is_at
drop-is_at s i sub r e =
    let same : rt_memcmp (drop i s) sub (length sub) ≡ Ordering.eq =
      ap (λ t. rt_memcmp t sub (length sub)) e ∙ rt_memcmp-append sub r in
    rw (same, is_at) refl
