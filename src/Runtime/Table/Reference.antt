-- ===== src/Runtime/Table/Reference.antt =====
-- The reference for a hash table (libs/runtime/src/kn_runtime.c): the stored keys and values as an
-- association list, in the order of the slots.
use kinal.Prelude.{
  ℕ, zero, suc, true, false, if◌then◌else◌, Option, none, some, [], ◌∷◌, Bytes, set, ◌≡◌, refl, sym,
  ap, ◌∙◌, arith, Bool-cases, inl, inr, Option-cases,
}
use kinal.Runtime.Strings.{rt_streq, rt_streq_right}
use kinal.Runtime.Table.{Entry, Slots, slot_at, find_value}
use kinal.Runtime.Table.Probe.{find_slot_streq}
use kinal.Runtime.Table.Stored.{IsSlots, find_value-hit, find_value-stored}

module _ {ℓ} {V : Type ℓ} where
  unfoldable pub first_value : Slots V → Bytes → Option V
  first_value [] key = none
  first_value (none ∷ es) key = first_value es key
  first_value (some e ∷ es) key =
      if rt_streq (some e.key) (some key) then some e.value else first_value es key

  -- No two entries have equal keys.
  abbrev pub Apart : Slots V → Type ℓ
  Apart [] = Unit
  Apart (none ∷ es) = Apart es
  Apart (some e ∷ es) = (first_value es e.key ≡ none) × Apart es

  -- What is first is stored.
  pub first_value-stored :
      (es : Slots V) (key : Bytes) (w : V)
      → first_value es key ≡ some w
      → (i : ℕ) × (e : Entry V) × (slot_at es i ≡ some e)
        × (rt_streq (some e.key) (some key) ≡ true)
        × (e.value ≡ w)
  unfolding first_value
  first_value-stored [] key w h = cc
  first_value-stored (none ∷ es) key w h =
      let (i, e, f, s, q) = first_value-stored es key w h in (suc i, e, f, s, q)
  first_value-stored (some e ∷ es) key w h = elim (Bool-cases (rt_streq (some e.key) (some key))) [
    | inl s ↦ (0, e, refl, s, ground (arith, h, s))
    | inr d ↦
        let (i, e', f, s, q) = first_value-stored es key w (ground (arith, h, d)) in
        (suc i, e', f, s, q)
  ]

  pub first_value-none :
      (es : Slots V) (key : Bytes)
      → first_value es key ≡ none
      → (i : ℕ) (e : Entry V) → slot_at es i ≡ some e
      → rt_streq (some e.key) (some key) ≡ false
  unfolding first_value
  first_value-none [] key h i e f = cc
  first_value-none (none ∷ es) key h zero e f = cc
  first_value-none (none ∷ es) key h (suc i) e f = first_value-none es key h i e f
  first_value-none (some d ∷ es) key h zero e f = ground (arith, h, f)
  first_value-none (some d ∷ es) key h (suc i) e f =
      first_value-none es key (ground (arith, h)) i e f

  pub first_value_streq :
      (es : Slots V) (a b : Bytes)
      → rt_streq (some a) (some b) ≡ true
      → first_value es a ≡ first_value es b
  unfolding first_value
  first_value_streq [] a b s = refl
  first_value_streq (none ∷ es) a b s = first_value_streq es a b s
  first_value_streq (some e ∷ es) a b s =
      rw (rt_streq_right e.key a b s) (rw (first_value_streq es a b s) refl)

  -- Slots with equal keys are one slot.
  abbrev pub Single : Slots V → Type ℓ
  Single es =
      (i j : ℕ) (d e : Entry V)
      → slot_at es i ≡ some d
      → slot_at es j ≡ some e
      → rt_streq (some d.key) (some e.key) ≡ true
      → i ≡ j

  pub Single-Apart : (es : Slots V) → Single es → Apart es
  Single-Apart [] h = tt
  Single-Apart (none ∷ es) h =
      Single-Apart es (λ i j d e f g s. omega (arith, h (suc i) (suc j) d e f g s))
  Single-Apart (some x ∷ es) h = (
    elim (Option-cases (first_value es x.key)) [
      | inl q ↦ q
      | inr (w, q) ↦
          let (i, e, f, s, _) = first_value-stored es x.key w q in
          absurd (omega (arith, h (suc i) 0 e x f refl s))
    ],
    Single-Apart es (λ i j d e f g s. omega (arith, h (suc i) (suc j) d e f g s)),
  )

  -- An entry that is taken out leaves the others.
  pub Apart-set-none :
      (es : Slots V) (i : ℕ) (e : Entry V)
      → slot_at es i ≡ some e
      → Apart es
      → (k : Bytes)
      → first_value (set es i none) k
        ≡ (if rt_streq (some e.key) (some k) then none else first_value es k)
  unfolding first_value
  Apart-set-none [] i e f a k = cc
  Apart-set-none (none ∷ es) zero e f a k = cc
  Apart-set-none (none ∷ es) (suc i) e f a k = Apart-set-none es i e f a k
  Apart-set-none (some d ∷ es) zero e f (n, a) k =
      ground (arith, f, n, first_value_streq es d.key k)
  Apart-set-none (some d ∷ es) (suc i) e f (n, a) k =
      let clash = first_value-none es d.key n i e f in
      elim (Bool-cases (rt_streq (some d.key) (some k))) [
        | inl s ↦
            let apart : rt_streq (some e.key) (some k) ≡ false =
              sym (rt_streq_right e.key d.key k s) ∙ clash in
            rw s (rw apart refl)
        | inr t ↦ rw t (Apart-set-none es i e f a k)
      ]

  pub set-none-Apart :
      (es : Slots V) (i : ℕ) (e : Entry V)
      → slot_at es i ≡ some e
      → Apart es
      → Apart (set es i none)
  set-none-Apart [] i e f a = cc
  set-none-Apart (none ∷ es) zero e f a = cc
  set-none-Apart (none ∷ es) (suc i) e f a = set-none-Apart es i e f a
  set-none-Apart (some d ∷ es) zero e f (n, a) = a
  set-none-Apart (some d ∷ es) (suc i) e f (n, a) = (
    Apart-set-none es i e f a d.key ∙ rw (first_value-none es d.key n i e f) n,
    set-none-Apart es i e f a,
  )

-- Slots that keep the invariant agree with the reference.
module _ {ℓ} {V : Type ℓ} (cap : ℕ) (es : Slots V) (v : IsSlots cap es) where
  pub IsSlots-Single : Single es
  IsSlots-Single i j d e f g s =
      ap (λ p. p.1) (sym (v.self i d f) ∙ find_slot_streq es d.key e.key s cap ∙ v.self j e g)

  pub IsSlots-Apart : Apart es
  IsSlots-Apart = Single-Apart es IsSlots-Single

  pub find_value-first_value : (k : Bytes) → find_value es cap k ≡ first_value es k
  find_value-first_value k = elim (Option-cases (first_value es k)) [
    | inl q ↦ elim (Option-cases (find_value es cap k)) [
      | inl p ↦ p ∙ sym q
      | inr (w, p) ↦
          let (i, e, f, s, _) = find_value-stored cap es v k w p in
          absurd (cc (first_value-none es k q i e f, s))
    ]
    | inr (w, q) ↦
        let (i, e, f, s, u) = first_value-stored es k w q in
        find_value-hit cap es v k i e f s ∙ ap some u ∙ sym q
  ]
