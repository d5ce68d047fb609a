-- ===== src/Runtime/Table/Removal.antt =====
-- Taking a key out of a hash table (libs/runtime/src/kn_runtime.c, __kn_dict_remove and
-- __kn_set_remove).
use kinal.Prelude.{
  ℕ, ◌-◌, ◌*◌, ◌^◌, ◌≤◌, ◌<◌, Bool, true, false, if◌then◌else◌, none, some, Bytes, set, ◌≡◌, refl,
  sym, ap, ◌∙◌, arith, Bool-cases, inl, inr, subst,
}
use kinal.Runtime.Strings.{rt_streq, rt_streq_left}
use kinal.Runtime.Table.{
  Table, find_slot, find_value, value_of, table_find, table_rehash, table_remove,
}
use kinal.Runtime.Table.Slots.{used}
use kinal.Runtime.Table.Stored.{IsSlots}
use kinal.Runtime.Table.Reference.{first_value, IsSlots-Apart}
use kinal.Runtime.Table.Moves.{IsTable, IsBounded, rehash_live, table_find-first_value, find_live}
use kinal.Runtime.Table.Slots.{used-set-none}
use kinal.Runtime.Table.Stored.{find_slot-found}
use kinal.Runtime.Table.Reference.{Apart-set-none, set-none-Apart, first_value_streq}

-- What is left when a key is taken out.
pub record Removed {ℓ} {V : Type ℓ} (size : ℕ) (t : Table V) (key : Bytes) (r : Table V × Bool)
    : Type ℓ where
  pub valid : IsTable size r.0
  pub finds :
      (k : Bytes)
      → table_find r.0 k ≡ (if rt_streq (some key) (some k) then none else table_find t k)
  pub counts : r.0.count ≡ elim (table_find t key) [ none ↦ t.count | some _ ↦ t.count - 1 ]
  pub tells : r.1 ≡ elim (table_find t key) [ none ↦ false | some _ ↦ true ]

module _ {ℓ} {V : Type ℓ} (size : ℕ) (gc_alloc : ℕ → Bool) (t : Table V) (key : Bytes) where
  -- A key that is not there changes nothing.
  absent : IsTable size t → table_find t key ≡ none → Removed size t key (t, false)
  absent v none_there = record {
    valid = v;
    finds = λ k. elim (Bool-cases (rt_streq (some key) (some k))) [
      | inl s ↦
          table_find-first_value size t v k
          ∙ sym (first_value_streq t.entries key k s)
          ∙ sym (table_find-first_value size t v key)
          ∙ none_there
          ∙ sym (rw s refl)
      | inr d ↦ sym (rw d refl)
    ];
    counts = rw none_there refl;
    tells = rw none_there refl;
  }

  remove_unborn : t.cap ≡ 0 → table_remove size gc_alloc t key ≡ (t, false)
  unfolding table_remove
  remove_unborn c = ground (arith, c)

  module _ (least : 8 ≤ t.cap) where
    abbrev at : Bool × ℕ
    at = find_slot t.entries t.cap key

    remove_missed : at.0 ≡ false → table_remove size gc_alloc t key ≡ (t, false)
    unfolding table_remove
    remove_missed h = ground (arith, least, h)

    abbrev emptied : Table V
    emptied = record t { count = t.count - 1; entries = set t.entries at.1 none }

    remove_found :
        at.0 ≡ true
        → table_remove size gc_alloc t key ≡ (table_rehash size gc_alloc emptied t.cap, true)
    unfolding table_remove
    remove_found h = ground (arith, least, h)

  module _ (positive : 1 ≤ size) (small : size ≤ 2 ^ 10) (heap : IsBounded gc_alloc) where
    Removed-live :
        (least : 8 ≤ t.cap)
        → size * t.cap ≤ 2 ^ 48
        → t.count ≡ used t.entries
        → t.count < t.cap
        → IsSlots t.cap t.entries
        → (at least).0 ≡ true
        → gc_alloc (size * t.cap) ≡ true
        → Removed size t key (table_rehash size gc_alloc (emptied least) t.cap, true)
    unfolding find_value
    Removed-live least fits counted room v found given =
        let (e, here, same) = find_slot-found t.cap t.entries v key found in
        let less = used-set-none t.entries (at least).1 e here in
        let apart = IsSlots-Apart t.cap t.entries v in
        let present : table_find t key ≡ some e.value =
          find_live t least key ∙ rw (found, find_value) (ap value_of here) in
        let r =
          rehash_live size positive small gc_alloc heap (emptied least) t.cap v.power least
            (omega (arith, fits)) given (omega (arith, counted, less)) (omega (arith, room))
            (set-none-Apart t.entries (at least).1 e here apart) in
        record {
          valid = r.0;
          finds = λ k.
              r.3 k
              ∙ Apart-set-none t.entries (at least).1 e here apart k
              ∙ ap (λ b. if b then none else first_value t.entries k)
                  (rt_streq_left e.key key k same)
              ∙ ap (λ o. if rt_streq (some key) (some k) then none else o)
                  (sym (table_find-first_value size t (IsTable.live least fits counted room v) k));
          counts = r.2 ∙ rw present refl;
          tells = rw present refl;
        }

    -- Taking a key out, with memory for as many slots again, keeps a table valid. The key then has
    -- no value, every other key what it had; the result says whether the key was there, and the
    -- count is one less if it was.
    pub table_remove-Removed :
        IsTable size t
        → gc_alloc (size * t.cap) ≡ true
        → Removed size t key (table_remove size gc_alloc t key)
    unfolding table_find find_value
    table_remove-Removed (IsTable.unborn c n e) given =
        subst (Removed size t key) (sym (remove_unborn c))
          (absent (IsTable.unborn c n e) (ground (arith, c)))
    table_remove-Removed (IsTable.live least fits counted room v) given =
        elim (Bool-cases (at least).0) [
          | inl found ↦
              subst (Removed size t key) (sym (remove_found least found))
                (Removed-live least fits counted room v found given)
          | inr missed ↦ subst (Removed size t key) (sym (remove_missed least missed)) (
              absent (IsTable.live least fits counted room v)
                (find_live t least key ∙ rw (missed, find_value) refl))
        ]
