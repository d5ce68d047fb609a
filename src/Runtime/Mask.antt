-- ===== src/Runtime/Mask.antt =====
-- The mask `x & (cap - 1)` of the hash tables (libs/runtime/src/kn_runtime.c), for a capacity that
-- is a power of two.
use Prim.Native.Nat.{bit_and, digits, bit_and-bitwise, min}
use native.Mathlib.Nat.{mod-add-div', mul-add-mod_self_right, mod-eq_of_lt}
use kinal.Prelude.{ℕ, zero, suc, ◌+◌, ◌-◌, ◌*◌, ◌/◌, ◌%◌, ◌≤◌, ◌<◌, ◌≡◌, refl, sym, ap, ◌∙◌, arith}

-- The powers of two.
pub data IsPower : ℕ → Type 0 where
  one : IsPower 1
  double : {n : ℕ} → IsPower n → IsPower (n * 2)

pub IsPower-le : {n : ℕ} → IsPower n → 1 ≤ n
IsPower-le IsPower.one = omega arith
IsPower-le (IsPower.double p) = omega (arith, IsPower-le p)

-- The digits of `a & m`, `n` of them at most.
abbrev masked : ℕ → ℕ → ℕ → ℕ
masked n a m = digits (λ b. zero) min n a m

masked-zero : (n a : ℕ) → masked n a 0 ≡ 0
masked-zero zero a = refl
masked-zero (suc n) zero = refl
masked-zero (suc n) (suc a) = omega (arith, masked-zero n (suc a / 2))

mod-double : (m x : ℕ) → 1 ≤ m → x % (m * 2) ≡ x / 2 % m * 2 + x % 2
mod-double m x h =
    let q = x / 2 / m in
    let low = x / 2 % m * 2 + x % 2 in
    let small : x / 2 % m < m = grind arith in
    let split : q * (m * 2) + low ≡ x = omega (arith, mod-add-div' (x / 2) m) in
    ap (λ (t : ℕ). t % (m * 2)) (sym split)
    ∙ mul-add-mod_self_right q (m * 2) low
    ∙ mod-eq_of_lt (omega (arith, small))

masked-IsPower : {m : ℕ} → IsPower m → (n a : ℕ) → a ≤ n → masked n a (m - 1) ≡ a % m
masked-IsPower IsPower.one n a h = omega (arith, masked-zero n a)
masked-IsPower (IsPower.double p) zero zero h = omega arith
masked-IsPower (IsPower.double p) zero (suc a) h = absurd (omega (arith, h))
masked-IsPower (IsPower.double p) (suc n) zero h = omega arith
masked-IsPower (IsPower.double {n = m} p) (suc n) (suc a) h =
    let ih = masked-IsPower p n (suc a / 2) (omega (arith, h)) in
    let half : (m * 2 - 1) / 2 ≡ m - 1 = omega (arith, IsPower-le p) in
    let odd : (m * 2 - 1) % 2 ≡ 1 = omega (arith, IsPower-le p) in
    rw half (rw odd (rw ih (omega (arith, mod-double m (suc a) (IsPower-le p)))))

-- The mask keeps the remainder.
pub bit_and-IsPower : {m : ℕ} → IsPower m → (x : ℕ) → bit_and x (m - 1) ≡ x % m
bit_and-IsPower {m} p x = bit_and-bitwise x (m - 1) ∙ masked-IsPower p x x (omega arith)
