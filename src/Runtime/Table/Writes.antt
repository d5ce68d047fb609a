-- ===== src/Runtime/Table/Writes.antt =====
-- What a write to a slot does to the table (libs/runtime/src/kn_runtime.c, __kn_dict_set,
-- __kn_set_add and the loop of dict_rehash).
use kinal.Prelude.{
  ℕ, ◌<◌, true, false, if◌then◌else◌, none, some, Bytes, length, set, ◌≡◌, ◌≢◌, refl, sym, ap, ◌∙◌,
  Bool-cases, inl, inr, get_or-set_self, get_or-set_ne, ◌⊎◌, ◌==◌, ==_iff,
}
use kinal.Runtime.Strings.{rt_streq, rt_streq_swap, rt_streq_trans}
use kinal.Runtime.Table.{Entry, Slots, slot_at, find_value}
use kinal.Runtime.Table.Stored.{IsSlots, find_value-hit, find_value_ext}

pub same_index : (i j : ℕ) → (i ≡ j) ⊎ (i ≢ j)
same_index i j = elim (Bool-cases (i == j)) [
  | inl e ↦ inl ((==_iff i j).0 e)
  | inr e ↦ inr (λ q. cc (e, (==_iff i j).1 q))
]

-- A write of an entry over a free slot or an entry of the same key.
module _ {ℓ} {V : Type ℓ} (cap : ℕ) (es : Slots V) (v : IsSlots cap es) (i : ℕ) (x : Entry V)
    (bound : i < length es)
    (over : (e : Entry V) → slot_at es i ≡ some e → rt_streq (some e.key) (some x.key) ≡ true)
    (v' : IsSlots cap (set es i (some x))) where
  written : slot_at (set es i (some x)) i ≡ some x
  written = get_or-set_self es i (some x) none bound

  elsewhere : (j : ℕ) → i ≢ j → slot_at (set es i (some x)) j ≡ slot_at es j
  elsewhere j n = get_or-set_ne es i j (some x) none n

  write-same :
      (k : Bytes)
      → rt_streq (some x.key) (some k) ≡ true
      → find_value (set es i (some x)) cap k ≡ some x.value
  write-same k s = find_value-hit cap (set es i (some x)) v' k i x written s

  write-other :
      (k : Bytes)
      → rt_streq (some x.key) (some k) ≡ false
      → find_value (set es i (some x)) cap k ≡ find_value es cap k
  write-other k d =
      let no_x : (e : Entry V) → slot_at es i ≡ some e → rt_streq (some e.key) (some k) ≢ true =
        λ e f s. cc (d, rt_streq_trans x.key e.key (rt_streq_swap e.key x.key (over e f)) k s) in
      find_value_ext cap cap (set es i (some x)) es v' v k
        (λ j e f s. elim (same_index i j) [
          | inl q ↦
              let g = sym (ap (slot_at (set es i (some x))) q ∙ f) ∙ written in
              absurd (cc (d, s, g))
          | inr n ↦ (j, sym (elsewhere j n) ∙ f)
        ])
        (λ j e f s. elim (same_index i j) [
          | inl q ↦ absurd (no_x e (ap (slot_at es) q ∙ f) s)
          | inr n ↦ (j, elsewhere j n ∙ f)
        ])

  pub write-find_value :
      (k : Bytes)
      → find_value (set es i (some x)) cap k
        ≡ (if rt_streq (some x.key) (some k) then some x.value else find_value es cap k)
  write-find_value k = elim (Bool-cases (rt_streq (some x.key) (some k))) [
    | inl s ↦ write-same k s ∙ sym (rw s refl)
    | inr d ↦ write-other k d ∙ sym (rw d refl)
  ]
