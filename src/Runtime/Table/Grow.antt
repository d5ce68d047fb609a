-- ===== src/Runtime/Table/Grow.antt =====
-- The growth of a table before an entry is put into it (libs/runtime/src/kn_runtime.c).
use kinal.Prelude.{
  ℕ, ◌+◌, ◌*◌, ◌%◌, ◌^◌, ◌≤◌, ◌<◌, Bool, true, false, if◌then◌else◌, [], Bytes, leb, ◌≡◌, refl, sym,
  ◌∙◌, arith, Bool-cases, inl, inr, subst, ◌⊎◌, ◌==◌,
}
use kinal.Runtime.Mask.{IsPower}
use kinal.Runtime.Table.{Table, table_find, table_rehash, table_grow}
use kinal.Runtime.Table.Slots.{used}
use kinal.Runtime.Table.Stored.{IsSlots}
use kinal.Runtime.Table.Reference.{IsSlots-Apart}
use kinal.Runtime.Table.Moves.{
  IsTable, IsBounded, rehash_live, rehash_refused, le-mul, table_find-first_value,
}

module _ {ℓ} {V : Type ℓ} (size : ℕ) (positive : 1 ≤ size) (small : size ≤ 2 ^ 10)
    (gc_alloc : ℕ → Bool) (heap : IsBounded gc_alloc) where
  -- The memory that the next entry needs: more slots, or a second free one.
  abbrev pub Given : Table V → Type 0
  Given t = (gc_alloc (size * (if t.cap == 0 then 8 else t.cap * 2)) ≡ true) ⊎ (t.count + 1 < t.cap)

  -- Growing keeps what the table holds.
  pub record Grown (t t' : Table V) : Type ℓ where
    pub valid : IsTable size t'
    pub least : 8 ≤ t'.cap
    pub spare : t'.count + 1 < t'.cap
    pub counts : t'.count ≡ t.count
    pub finds : (k : Bytes) → table_find t' k ≡ table_find t k

  grow_first :
      (t : Table V) → t.cap ≡ 0 → table_grow size gc_alloc t ≡ table_rehash size gc_alloc t 8
  unfolding table_grow
  grow_first t c = ground (arith, c)

  -- Whether the table is too full for one more.
  abbrev is_full : Table V → Bool
  is_full t = leb (t.cap * 7 % 2 ^ 64) ((t.count + 1) * 10 % 2 ^ 64)

  grow_full :
      (t : Table V)
      → 8 ≤ t.cap
      → is_full t ≡ true
      → table_grow size gc_alloc t ≡ table_rehash size gc_alloc t (t.cap * 2 % 2 ^ 64)
  unfolding table_grow
  grow_full t h f = ground (arith, h, f)

  grow_room : (t : Table V) → 8 ≤ t.cap → is_full t ≡ false → table_grow size gc_alloc t ≡ t
  unfolding table_grow
  grow_room t h f = ground (arith, h, f)

  pub grow_unborn :
      (t : Table V)
      → t.cap ≡ 0
      → t.count ≡ 0
      → t.entries ≡ []
      → gc_alloc (size * 8) ≡ true
      → Grown t (table_grow size gc_alloc t)
  unfolding used
  grow_unborn t c n e given =
      let p : IsPower 8 = IsPower.double (IsPower.double (IsPower.double IsPower.one)) in
      let r =
        rehash_live size positive small gc_alloc heap t 8 p (omega arith) (omega (arith, small))
          given (rw e n) (omega (arith, n)) (rw e tt) in
      subst (Grown t) (sym (grow_first t c)) (record {
        valid = r.0;
        least = omega (arith, r.1);
        spare = omega (arith, r.1, r.2, n);
        counts = r.2;
        finds = λ k. r.3 k ∙ sym (table_find-first_value size t (IsTable.unborn c n e) k);
      })

  module _ (t : Table V) (least : 8 ≤ t.cap) (fits : size * t.cap ≤ 2 ^ 48)
      (counted : t.count ≡ used t.entries) (room : t.count < t.cap)
      (v : IsSlots t.cap t.entries) where
    kept : t.count + 1 < t.cap → Grown t t
    kept spare = record {
      valid = IsTable.live least fits counted room v;
      least = least;
      spare = spare;
      counts = refl;
      finds = λ k. refl;
    }

    cap_fits : t.cap ≤ 2 ^ 48
    cap_fits = le-mul size t.cap (2 ^ 48) positive fits

    doubled :
        gc_alloc (size * (t.cap * 2)) ≡ true
        → Grown t (table_rehash size gc_alloc t (t.cap * 2 % 2 ^ 64))
    doubled given =
        let exact : t.cap * 2 % 2 ^ 64 ≡ t.cap * 2 = omega (arith, cap_fits) in
        let r =
          rehash_live size positive small gc_alloc heap t (t.cap * 2) (IsPower.double v.power)
            (omega (arith, least)) (omega (arith, fits)) given counted (omega (arith, room, least))
            (IsSlots-Apart t.cap t.entries v) in
        rw exact (record {
          valid = r.0;
          least = omega (arith, r.1, least);
          spare = omega (arith, r.1, r.2, room, least);
          counts = r.2;
          finds = λ k.
              r.3 k
              ∙ sym (table_find-first_value size t (IsTable.live least fits counted room v) k);
        })

    refused :
        gc_alloc (size * (t.cap * 2)) ≡ false
        → table_rehash size gc_alloc t (t.cap * 2 % 2 ^ 64) ≡ t
    refused h =
        let exact : t.cap * 2 % 2 ^ 64 ≡ t.cap * 2 = omega (arith, cap_fits) in
        let wide : size * (t.cap * 2) % 2 ^ 64 ≡ size * (t.cap * 2) = omega (arith, fits) in
        rw exact (
          rehash_refused size gc_alloc t (t.cap * 2) (IsPower.double v.power) (omega (arith, least))
            (rw wide h))

    pub grow_live : Given t → Grown t (table_grow size gc_alloc t)
    grow_live given = elim (Bool-cases (is_full t)) [
      | inr f ↦
          subst (Grown t) (sym (grow_room t least f)) (kept (ground (arith, f, cap_fits, room)))
      | inl f ↦
          subst (Grown t) (sym (grow_full t least f))
            (elim (Bool-cases (gc_alloc (size * (t.cap * 2)))) [
              | inl g ↦ doubled g
              | inr g ↦ subst (Grown t) (sym (refused g)) (kept (ground (arith, given, g, least)))
            ])
    ]

  pub grown : (t : Table V) → IsTable size t → Given t → Grown t (table_grow size gc_alloc t)
  grown t (IsTable.unborn c n e) given = grow_unborn t c n e (ground (arith, c, given))
  grown t (IsTable.live least fits counted room v) given =
      grow_live t least fits counted room v given
