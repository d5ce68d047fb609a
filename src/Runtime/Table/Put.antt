-- ===== src/Runtime/Table/Put.antt =====
-- The slots after an entry is put into them (libs/runtime/src/kn_runtime.c, the ends of
-- __kn_dict_set and __kn_set_add, and the loop of dict_rehash).
use kinal.Prelude.{
  ℕ, ◌+◌, ◌<◌, true, false, if◌then◌else◌, none, some, Bytes, length, set, ◌≡◌, sym, ap, ◌∙◌, arith,
  inl, inr, get_or-set_self, get_or-set_ne, length-set, subst,
}
use kinal.Runtime.Strings.{rt_streq, rt_streq_refl}
use kinal.Runtime.Table.{Entry, Slots, slot_at, find_slot, find_value}
use kinal.Runtime.Table.Probe.{probe-set, probe-set_self, key_of, probe_keys}
use kinal.Runtime.Table.Slots.{used, used-free, passes, used-set_free}
use kinal.Runtime.Table.Stored.{IsSlots, find_slot-bound, find_slot-missed, home_bound}
use kinal.Runtime.Table.Writes.{same_index, write-find_value}

module _ {ℓ} {V : Type ℓ} (cap : ℕ) (es : Slots V) (v : IsSlots cap es) (x : Entry V) where
  abbrev at : ℕ
  at = (find_slot es cap x.key).1

  at_bound : at < length es
  at_bound = rw v.size (find_slot-bound cap es v x.key)

  module _ (room : used es < cap) (missed : (find_slot es cap x.key).0 ≡ false) where
    at_free : slot_at es at ≡ none
    at_free = find_slot-missed cap es v x.key room missed

    self_found : find_slot (set es at (some x)) cap x.key ≡ (true, at)
    unfolding find_slot
    self_found =
        let (i, b, f) = used-free es (rw v.size room) in
        let (m, hm, way) = passes cap _ i v.power (home_bound cap es v x.key) (rw (← v.size) b) in
        probe-set_self es at x at_free x.key _ _ cap 0 m (omega arith) (omega (arith, hm))
          (ap (slot_at es) way ∙ f) at_bound (rt_streq_refl x.key) (ap (λ b. (b, at)) missed)

    others_found :
        (i : ℕ) (e : Entry V)
        → slot_at es i ≡ some e
        → find_slot (set es at (some x)) cap e.key ≡ (true, i)
    unfolding find_slot
    others_found i e f =
        probe-set es at x at_free e.key _ _ cap 0 (ap (λ p. p.0) (v.self i e f)) ∙ v.self i e f

    pub insert-IsSlots : IsSlots cap (set es at (some x))
    insert-IsSlots = record {
      power = v.power;
      size = length-set es at (some x) ∙ v.size;
      self = λ i e f. elim (same_index at i) [
        | inl q ↦
            let g =
              sym (ap (slot_at (set es at (some x))) q ∙ f)
              ∙ get_or-set_self es at (some x) none at_bound in
            let k : e.key ≡ x.key = cc in
            ap (find_slot (set es at (some x)) cap) k ∙ self_found ∙ ap (λ j. (true, j)) q
        | inr n ↦ others_found i e (sym (get_or-set_ne es at i (some x) none n) ∙ f)
      ];
    }

    pub insert-used : used (set es at (some x)) ≡ used es + 1
    insert-used = used-set_free es at x at_bound at_free

    pub insert-find_value :
        (k : Bytes)
        → find_value (set es at (some x)) cap k
          ≡ (if rt_streq (some x.key) (some k) then some x.value else find_value es cap k)
    insert-find_value =
        write-find_value cap es v at x at_bound (λ e f. absurd (cc (f, at_free))) insert-IsSlots

-- A write over the entry of a key that is found.
module _ {ℓ} {V : Type ℓ} (cap : ℕ) (es : Slots V) (v : IsSlots cap es) (i : ℕ) (e x : Entry V)
    (here : slot_at es i ≡ some e) (key : x.key ≡ e.key) (bound : i < length es) where
  keys_agree : (j : ℕ) → key_of (slot_at es j) ≡ key_of (slot_at (set es i (some x)) j)
  keys_agree j = elim (same_index i j) [
    | inl q ↦
        ap key_of (sym (ap (slot_at es) q) ∙ here)
        ∙ ap some (sym key)
        ∙ ap key_of (
            sym
              (sym (ap (slot_at (set es i (some x))) q) ∙ get_or-set_self es i (some x) none bound))
    | inr n ↦ ap key_of (sym (get_or-set_ne es i j (some x) none n))
  ]

  find_slot_agree : (k : Bytes) → find_slot (set es i (some x)) cap k ≡ find_slot es cap k
  unfolding find_slot
  find_slot_agree k = sym (probe_keys es (set es i (some x)) keys_agree k _ _ cap 0)

  pub update-IsSlots : IsSlots cap (set es i (some x))
  update-IsSlots = record {
    power = v.power;
    size = length-set es i (some x) ∙ v.size;
    self = λ j d f. elim (same_index i j) [
      | inl q ↦
          let g =
            sym (ap (slot_at (set es i (some x))) q ∙ f)
            ∙ get_or-set_self es i (some x) none bound in
          let k : d.key ≡ e.key = cc in
          find_slot_agree d.key ∙ ap (find_slot es cap) k ∙ v.self i e here ∙ ap (λ n. (true, n)) q
      | inr n ↦ find_slot_agree d.key ∙ v.self j d (sym (get_or-set_ne es i j (some x) none n) ∙ f)
    ];
  }

  pub update-find_value :
      (k : Bytes)
      → find_value (set es i (some x)) cap k
        ≡ (if rt_streq (some x.key) (some k) then some x.value else find_value es cap k)
  update-find_value =
      write-find_value cap es v i x bound
        (λ d f.
          let k : d.key ≡ x.key = cc (f, here, key) in
          subst (λ c. rt_streq (some c) (some x.key) ≡ true) (sym k) (rt_streq_refl x.key))
        update-IsSlots
