-- ===== src/Runtime/Table/Probe.antt =====
-- What probing finds (libs/runtime/src/kn_runtime.c, dict_find_slot and set_find_slot).
use Prim.Native.Nat.{bit_and}
use kinal.Prelude.{
  ℕ, zero, suc, ◌+◌, ◌-◌, ◌≤◌, ◌<◌, true, false, Option, none, some, Bytes, length, set, ◌≡◌, ◌≢◌,
  refl, sym, ap, ◌∙◌, arith, Bool-cases, inl, inr, get_or-set_self, get_or-set_ne,
}
use kinal.Runtime.Strings.{rt_streq, rt_hash, rt_streq_right, rt_hash-rt_streq}
use kinal.Runtime.Table.{Entry, Slots, slot_at, probe, find_slot}

-- A slot is free or has an entry, whose key is the one looked for or another.
pub data View {ℓ} {V : Type ℓ} (s : Option (Entry V)) (key : Bytes) : Type ℓ where
  free : s ≡ none → View s key
  same : (e : Entry V) → s ≡ some e → rt_streq (some e.key) (some key) ≡ true → View s key
  other : (e : Entry V) → s ≡ some e → rt_streq (some e.key) (some key) ≡ false → View s key

pub view {ℓ} : {V : Type ℓ} (s : Option (Entry V)) (key : Bytes) → View s key
view none key = View.free refl
view (some e) key = elim (Bool-cases (rt_streq (some e.key) (some key))) [
  | inl h ↦ View.same e refl h
  | inr h ↦ View.other e refl h
]

module _ {ℓ} {V : Type ℓ} (es : Slots V) (key : Bytes) (idx mask : ℕ) where
  -- One round, by the slot it looks at.
  module _ (r n : ℕ) where
    pub round_free :
        slot_at es (bit_and (idx + n) mask) ≡ none
        → probe (suc r) es key idx mask n ≡ (false, bit_and (idx + n) mask)
    unfolding probe
    round_free h = rw (h, probe) refl

    pub round_same :
        (e : Entry V)
        → slot_at es (bit_and (idx + n) mask) ≡ some e
        → rt_streq (some e.key) (some key) ≡ true
        → probe (suc r) es key idx mask n ≡ (true, bit_and (idx + n) mask)
    unfolding probe
    round_same e h s = rw (h, s, probe) refl

    pub round_other :
        (e : Entry V)
        → slot_at es (bit_and (idx + n) mask) ≡ some e
        → rt_streq (some e.key) (some key) ≡ false
        → probe (suc r) es key idx mask n ≡ probe r es key idx mask (n + 1)
    unfolding probe
    round_other e h s = rw (h, s, probe) refl

  -- A key that is found stands in the slot.
  pub probe-found :
      (r n : ℕ)
      → (probe r es key idx mask n).0 ≡ true
      → (e : Entry V) × (slot_at es (probe r es key idx mask n).1 ≡ some e)
        × (rt_streq (some e.key) (some key) ≡ true)
  unfolding probe
  probe-found zero n h = cc
  probe-found (suc r) n h = elim (view (slot_at es (bit_and (idx + n) mask)) key) [
    | free f ↦ cc (round_free r n f)
    | same e f s ↦ (e, ap (λ p. slot_at es p.1) (round_same r n e f s) ∙ f, s)
    | other e f s ↦
        let step = round_other r n e f s in
        rw step (probe-found r (n + 1) (sym (ap (λ p. p.0) step) ∙ h))
  ]

  -- Where a slot on the way is free, a key that is not found gets a free slot.
  pub probe-missed :
      (r n m : ℕ)
      → n ≤ m
      → m < n + r
      → slot_at es (bit_and (idx + m) mask) ≡ none
      → (probe r es key idx mask n).0 ≡ false
      → slot_at es (probe r es key idx mask n).1 ≡ none
  unfolding probe
  probe-missed zero n m lo hi f h = absurd (omega (arith, lo, hi))
  probe-missed (suc r) n m lo hi f h = elim (view (slot_at es (bit_and (idx + n) mask)) key) [
    | free g ↦ ap (λ p. slot_at es p.1) (round_free r n g) ∙ g
    | same e g s ↦ cc (round_same r n e g s)
    | other e g s ↦
        let step = round_other r n e g s in
        let apart : n ≢ m = λ q. cc (f, g, ap (λ k. slot_at es (bit_and (idx + k) mask)) q) in
        rw step (
          probe-missed r (n + 1) m (omega (arith, lo, apart)) (omega (arith, hi)) f
            (sym (ap (λ p. p.0) step) ∙ h))
  ]

-- An entry put into a free slot.
module _ {ℓ} {V : Type ℓ} (es : Slots V) (i : ℕ) (x : Entry V) (unused : slot_at es i ≡ none)
    (key : Bytes) (idx mask : ℕ) where
  differ : (j : ℕ) (e : Entry V) → slot_at es j ≡ some e → i ≢ j
  differ j e f q = cc (unused, f, ap (slot_at es) q)

  kept : (j : ℕ) (e : Entry V) → slot_at es j ≡ some e → slot_at (set es i (some x)) j ≡ some e
  kept j e f = get_or-set_ne es i j (some x) none (differ j e f) ∙ f

  -- A key that was found is found where it was.
  pub probe-set :
      (r n : ℕ)
      → (probe r es key idx mask n).0 ≡ true
      → probe r (set es i (some x)) key idx mask n ≡ probe r es key idx mask n
  unfolding probe
  probe-set zero n h = refl
  probe-set (suc r) n h = elim (view (slot_at es (bit_and (idx + n) mask)) key) [
    | free f ↦ cc (round_free es key idx mask r n f)
    | same e f s ↦
        round_same _ key idx mask r n e (kept _ e f) s ∙ sym (round_same es key idx mask r n e f s)
    | other e f s ↦
        let step = round_other es key idx mask r n e f s in
        round_other _ key idx mask r n e (kept _ e f) s
        ∙ probe-set r (n + 1) (sym (ap (λ p. p.0) step) ∙ h)
        ∙ sym step
  ]

  -- The key of the entry is found in the slot that it was given.
  pub probe-set_self :
      (r n m : ℕ)
      → n ≤ m
      → m < n + r
      → slot_at es (bit_and (idx + m) mask) ≡ none
      → i < length es
      → rt_streq (some x.key) (some key) ≡ true
      → probe r es key idx mask n ≡ (false, i)
      → probe r (set es i (some x)) key idx mask n ≡ (true, i)
  unfolding probe
  probe-set_self zero n m lo hi f room eq h = absurd (omega (arith, lo, hi))
  probe-set_self (suc r) n m lo hi f room eq h =
      elim (view (slot_at es (bit_and (idx + n) mask)) key) [
        | free g ↦
            let here : bit_and (idx + n) mask ≡ i =
              ap (λ p. p.1) (sym (round_free es key idx mask r n g) ∙ h) in
            let put : slot_at (set es i (some x)) (bit_and (idx + n) mask) ≡ some x =
              ap (slot_at (set es i (some x))) here ∙ get_or-set_self es i (some x) none room in
            round_same _ key idx mask r n x put eq ∙ ap (λ k. (true, k)) here
        | same e g s ↦ cc (round_same es key idx mask r n e g s, h)
        | other e g s ↦
            let apart : n ≢ m = λ q. cc (f, g, ap (λ k. slot_at es (bit_and (idx + k) mask)) q) in
            round_other _ key idx mask r n e (kept _ e g) s
            ∙ probe-set_self r (n + 1) m (omega (arith, lo, apart)) (omega (arith, hi)) f room eq
                (sym (round_other es key idx mask r n e g s) ∙ h)
      ]

-- Probing reads the keys of the slots alone.
abbrev pub key_of {ℓ} : {V : Type ℓ} → Option (Entry V) → Option Bytes
key_of none = none
key_of (some e) = some e.key

key_of-none {ℓ} : {V : Type ℓ} (s : Option (Entry V)) → none ≡ key_of s → s ≡ none
key_of-none none h = refl
key_of-none (some e) h = cc

key_of-some {ℓ} :
    {V : Type ℓ} (s : Option (Entry V)) (k : Bytes)
    → some k ≡ key_of s
    → (e : Entry V) × (s ≡ some e) × (e.key ≡ k)
key_of-some none k h = cc
key_of-some (some e) k h = (e, refl, cc)

module _ {ℓ} {V : Type ℓ} (es es' : Slots V)
    (agree : (j : ℕ) → key_of (slot_at es j) ≡ key_of (slot_at es' j)) (key : Bytes)
    (idx mask : ℕ) where
  pub probe_keys : (r n : ℕ) → probe r es key idx mask n ≡ probe r es' key idx mask n
  unfolding probe
  probe_keys zero n = refl
  probe_keys (suc r) n =
      let i = bit_and (idx + n) mask in
      elim (view (slot_at es i) key) [
        | free f ↦
            let f' = key_of-none (slot_at es' i) (sym (ap key_of f) ∙ agree i) in
            round_free es key idx mask r n f ∙ sym (round_free es' key idx mask r n f')
        | same e f s ↦
            let (e', f', k) = key_of-some (slot_at es' i) e.key (sym (ap key_of f) ∙ agree i) in
            round_same es key idx mask r n e f s
            ∙ sym (
                round_same es' key idx mask r n e' f'
                  (ap (λ c. rt_streq (some c) (some key)) k ∙ s))
        | other e f s ↦
            let (e', f', k) = key_of-some (slot_at es' i) e.key (sym (ap key_of f) ∙ agree i) in
            round_other es key idx mask r n e f s
            ∙ probe_keys r (n + 1)
            ∙ sym (
                round_other es' key idx mask r n e' f'
                  (ap (λ c. rt_streq (some c) (some key)) k ∙ s))
      ]

-- Equal keys are looked for alike.
module _ {ℓ} {V : Type ℓ} (es : Slots V) (a b : Bytes)
    (eq : rt_streq (some a) (some b) ≡ true) where
  probe_streq : (r idx mask n : ℕ) → probe r es a idx mask n ≡ probe r es b idx mask n
  unfolding probe
  probe_streq zero idx mask n = refl
  probe_streq (suc r) idx mask n = elim (view (slot_at es (bit_and (idx + n) mask)) a) [
    | free f ↦ round_free es a idx mask r n f ∙ sym (round_free es b idx mask r n f)
    | same e f s ↦
        round_same es a idx mask r n e f s
        ∙ sym (round_same es b idx mask r n e f (sym (rt_streq_right e.key a b eq) ∙ s))
    | other e f s ↦
        round_other es a idx mask r n e f s
        ∙ probe_streq r idx mask (n + 1)
        ∙ sym (round_other es b idx mask r n e f (sym (rt_streq_right e.key a b eq) ∙ s))
  ]

  pub find_slot_streq : (cap : ℕ) → find_slot es cap a ≡ find_slot es cap b
  unfolding find_slot
  find_slot_streq cap =
      ap (λ h. probe cap es a (bit_and h (cap - 1)) (cap - 1) 0) (rt_hash-rt_streq a b eq)
      ∙ probe_streq cap (bit_and (rt_hash (some b)) (cap - 1)) (cap - 1) 0
