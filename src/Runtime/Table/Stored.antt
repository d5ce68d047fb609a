-- ===== src/Runtime/Table/Stored.antt =====
-- The invariant of the slots of a hash table (libs/runtime/src/kn_runtime.c): each stored key is
-- found in its own slot. What a lookup gives is then decided by what is stored.
use Prim.Native.Nat.{bit_and}
use native.Mathlib.Nat.{mod-lt}
use kinal.Prelude.{
  ℕ, zero, suc, ◌+◌, ◌-◌, ◌<◌, true, false, none, some, Bytes, length, ◌≡◌, refl, sym, ap, ◌∙◌,
  arith, Bool-cases, inl, inr, Option-cases,
}
use kinal.Runtime.Mask.{IsPower, IsPower-le, bit_and-IsPower}
use kinal.Runtime.Strings.{rt_streq, rt_hash}
use kinal.Runtime.Table.{Entry, Slots, slot_at, probe, find_slot, value_of, find_value}
use kinal.Runtime.Table.Probe.{probe-found, probe-missed, find_slot_streq}
use kinal.Runtime.Table.Slots.{used, used-free, passes}

pub record IsSlots {ℓ} {V : Type ℓ} (cap : ℕ) (es : Slots V) : Type ℓ where
  pub power : IsPower cap
  pub size : length es ≡ cap
  pub self : (i : ℕ) (e : Entry V) → slot_at es i ≡ some e → find_slot es cap e.key ≡ (true, i)

module _ {ℓ} {V : Type ℓ} where
  probe-bound :
      (cap : ℕ)
      → IsPower cap
      → (r : ℕ) (es : Slots V) (key : Bytes) (idx n : ℕ) → (probe r es key idx (cap - 1) n).1 < cap
  unfolding probe
  probe-bound cap p zero es key idx n = IsPower-le p
  probe-bound cap p (suc r) es key idx n =
      let here : bit_and (idx + n) (cap - 1) < cap =
        rw (bit_and-IsPower p (idx + n)) (mod-lt _ (IsPower-le p)) in
      ground (arith, here, probe-bound cap p r es key idx (n + 1))

module _ {ℓ} {V : Type ℓ} (cap : ℕ) (es : Slots V) (v : IsSlots cap es) where
  pub home_bound : (key : Bytes) → bit_and (rt_hash (some key)) (cap - 1) < cap
  home_bound key = rw (bit_and-IsPower v.power (rt_hash (some key))) (mod-lt _ (IsPower-le v.power))

  module _ (key : Bytes) where
    pub find_slot-found :
        (find_slot es cap key).0 ≡ true
        → (e : Entry V) × (slot_at es (find_slot es cap key).1 ≡ some e)
          × (rt_streq (some e.key) (some key) ≡ true)
    unfolding find_slot
    find_slot-found h = probe-found es key _ _ cap 0 h

    pub find_slot-bound : (find_slot es cap key).1 < cap
    unfolding find_slot
    find_slot-bound = probe-bound cap v.power cap es key _ 0

    -- With a free slot, a key that is not found gets one.
    pub find_slot-missed :
        used es < cap
        → (find_slot es cap key).0 ≡ false
        → slot_at es (find_slot es cap key).1 ≡ none
    unfolding find_slot
    find_slot-missed room h =
        let (i, b, f) = used-free es (rw v.size room) in
        let (m, hm, at) = passes cap _ i v.power (home_bound key) (rw (← v.size) b) in
        probe-missed es key _ _ cap 0 m (omega arith) (omega (arith, hm)) (ap (slot_at es) at ∙ f) h

    pub find_value-hit :
        (i : ℕ) (e : Entry V)
        → slot_at es i ≡ some e
        → rt_streq (some e.key) (some key) ≡ true
        → find_value es cap key ≡ some e.value
    unfolding find_value
    find_value-hit i e f s =
        let at = sym (find_slot_streq es e.key key s cap) ∙ v.self i e f in
        rw (at, find_value) (ap value_of f)

  -- What is found is stored.
  pub find_value-stored :
      (key : Bytes) (w : V)
      → find_value es cap key ≡ some w
      → (i : ℕ) × (e : Entry V) × (slot_at es i ≡ some e)
        × (rt_streq (some e.key) (some key) ≡ true)
        × (e.value ≡ w)
  unfolding find_value
  find_value-stored key w h = elim (Bool-cases (find_slot es cap key).0) [
    | inl found ↦
        let (e, f, s) = find_slot-found key found in
        let open' : find_value es cap key ≡ value_of (slot_at es (find_slot es cap key).1) =
          rw (found, find_value) refl in
        let value : some e.value ≡ some w = sym (ap value_of f) ∙ sym open' ∙ h in
        ((find_slot es cap key).1, e, f, s, cc)
    | inr missed ↦ let open' : find_value es cap key ≡ none = rw (missed, find_value) refl in cc
  ]

  -- What is not found is not stored.
  pub find_value-none :
      (key : Bytes)
      → find_value es cap key ≡ none
      → (i : ℕ) (e : Entry V) → slot_at es i ≡ some e
      → rt_streq (some e.key) (some key) ≡ false
  find_value-none key h i e f = elim (Bool-cases (rt_streq (some e.key) (some key))) [
    | inl s ↦ cc (find_value-hit key i e f s)
    | inr s ↦ s
  ]

-- Where two tables store the same under a key, they give the same.
module _ {ℓ} {V : Type ℓ} (cap cap' : ℕ) (es es' : Slots V) (v : IsSlots cap es)
    (v' : IsSlots cap' es') (key : Bytes) where
  pub find_value_ext :
      ((i : ℕ) (e : Entry V)
        → slot_at es i ≡ some e
        → rt_streq (some e.key) (some key) ≡ true
        → (j : ℕ) × (slot_at es' j ≡ some e))
      → ((i : ℕ) (e : Entry V)
          → slot_at es' i ≡ some e
          → rt_streq (some e.key) (some key) ≡ true
          → (j : ℕ) × (slot_at es j ≡ some e))
      → find_value es cap key ≡ find_value es' cap' key
  find_value_ext to back = elim (Option-cases (find_value es cap key)) [
    | inl missed ↦ elim (Option-cases (find_value es' cap' key)) [
      | inl missed' ↦ missed ∙ sym missed'
      | inr (w, found) ↦
          let (i, e, f, s, _) = find_value-stored cap' es' v' key w found in
          let (j, g) = back i e f s in cc (find_value-hit cap es v key j e g s)
    ]
    | inr (w, found) ↦
        let (i, e, f, s, q) = find_value-stored cap es v key w found in
        let (j, g) = to i e f s in
        found ∙ ap some (sym q) ∙ sym (find_value-hit cap' es' v' key j e g s)
  ]
