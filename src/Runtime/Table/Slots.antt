-- ===== src/Runtime/Table/Slots.antt =====
-- The slots of a hash table (libs/runtime/src/kn_runtime.c): those in use, and the invariant that
-- each stored key is found in its own slot.
use Prim.Native.Nat.{bit_and}
use native.Mathlib.Nat.{mod-eq_of_lt, add-mul-mod_self_right}
use kinal.Prelude.{
  ℕ, zero, suc, ◌+◌, ◌-◌, ◌%◌, ◌≤◌, ◌<◌, none, some, [], ◌∷◌, length, set, leb, ◌≡◌, refl, ap, ◌∙◌,
  arith, Bool-cases, inl, inr,
}
use kinal.Runtime.Mask.{IsPower, bit_and-IsPower}
use kinal.Runtime.Table.{Entry, Slots, slot_at}

module _ {ℓ} {V : Type ℓ} where
  -- The number of slots in use.
  unfoldable pub used : Slots V → ℕ
  used [] = 0
  used (none ∷ es) = used es
  used (some e ∷ es) = used es + 1

  pub used-free :
      (es : Slots V) → used es < length es → (i : ℕ) × (i < length es) × (slot_at es i ≡ none)
  unfolding used
  used-free [] h = absurd (omega (arith, h))
  used-free (none ∷ es) h = (0, omega arith, refl)
  used-free (some e ∷ es) h =
      let (i, b, f) = used-free es (omega (arith, h)) in (suc i, omega (arith, b), f)

  pub used-set_free :
      (es : Slots V) (i : ℕ) (x : Entry V)
      → i < length es
      → slot_at es i ≡ none
      → used (set es i (some x)) ≡ used es + 1
  unfolding used
  used-set_free [] i x b f = absurd (omega (arith, b))
  used-set_free (none ∷ es) zero x b f = refl
  used-set_free (some e ∷ es) zero x b f = cc
  used-set_free (none ∷ es) (suc i) x b f = used-set_free es i x (omega (arith, b)) f
  used-set_free (some e ∷ es) (suc i) x b f =
      omega (arith, used-set_free es i x (omega (arith, b)) f)

  pub used-set-used :
      (es : Slots V) (i : ℕ) (e x : Entry V)
      → slot_at es i ≡ some e
      → used (set es i (some x)) ≡ used es
  unfolding used
  used-set-used [] i e x f = cc
  used-set-used (none ∷ es) zero e x f = cc
  used-set-used (some d ∷ es) zero e x f = refl
  used-set-used (none ∷ es) (suc i) e x f = used-set-used es i e x f
  used-set-used (some d ∷ es) (suc i) e x f = omega (arith, used-set-used es i e x f)

  pub used-set-none :
      (es : Slots V) (i : ℕ) (e : Entry V)
      → slot_at es i ≡ some e
      → used (set es i none) + 1 ≡ used es
  unfolding used
  used-set-none [] i e f = cc
  used-set-none (none ∷ es) zero e f = cc
  used-set-none (some d ∷ es) zero e f = refl
  used-set-none (none ∷ es) (suc i) e f = used-set-none es i e f
  used-set-none (some d ∷ es) (suc i) e f = omega (arith, used-set-none es i e f)

-- The way from any place passes every slot.
pub passes :
    (cap idx i : ℕ)
    → IsPower cap
    → idx < cap
    → i < cap
    → (m : ℕ) × (m < cap) × (bit_and (idx + m) (cap - 1) ≡ i)
passes cap idx i p hi hb = elim (Bool-cases (leb idx i)) [
  | inl e ↦
      let le : idx ≤ i = ground (arith, e) in
      (
        i - idx,
        omega (arith, hb),
        bit_and-IsPower p _ ∙ ap (λ t. t % cap) (omega (arith, le)) ∙ mod-eq_of_lt hb,
      )
  | inr e ↦
      let lt : i < idx = ground (arith, e) in
      (
        i + cap - idx,
        omega (arith, hi, lt),
        bit_and-IsPower p _
            ∙ ap (λ t. t % cap) (omega (arith, lt, hi))
            ∙ add-mul-mod_self_right i 1 cap
            ∙ mod-eq_of_lt hb,
      )
]
