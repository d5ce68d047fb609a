-- ===== src/Runtime/Table/Moves.antt =====
-- A table as a whole, and its move to other slots (libs/runtime/src/kn_runtime.c, dict_rehash and
-- set_rehash).
use Prim.Native.Nat.{bit_and}
use kinal.Prelude.{
  ℕ, zero, suc, ◌-◌, ◌*◌, ◌%◌, ◌^◌, ◌≤◌, ◌<◌, Bool, true, false, Option, none, some, [], Bytes, ◌≡◌,
  refl, ap, ◌∙◌, arith,
}
use kinal.Runtime.Mask.{IsPower, bit_and-IsPower}
use kinal.Runtime.Table.{
  Table, find_value, cleared, copy_slots, table_cap, table_find, table_rehash,
}
use kinal.Runtime.Table.Slots.{used}
use kinal.Runtime.Table.Stored.{IsSlots}
use kinal.Runtime.Table.Reference.{first_value, Apart, find_value-first_value}
use kinal.Runtime.Table.Rehash.{
  or_else, used-cleared, cleared-IsSlots, first_value-cleared, Copied, copy_slots-Copied,
}

-- A table has no slots yet, or has slots that keep their invariant, one of them free.
pub data IsTable {ℓ} {V : Type ℓ} (size : ℕ) (t : Table V) : Type ℓ where
  unborn : t.cap ≡ 0 → t.count ≡ 0 → t.entries ≡ [] → IsTable size t
  live :
      8 ≤ t.cap
      → size * t.cap ≤ 2 ^ 48
      → t.count ≡ used t.entries
      → t.count < t.cap
      → IsSlots t.cap t.entries
      → IsTable size t

table_cap-IsPower : {c : ℕ} → IsPower c → 8 ≤ c → table_cap c ≡ c
unfolding table_cap
table_cap-IsPower {c} p h =
    let mask : bit_and c (c - 1) ≡ 0 = bit_and-IsPower p c ∙ grind arith in ground (arith, mask, h)

pub or_else-none {ℓ} : {A : Type ℓ} (o : Option A) → or_else o none ≡ o
or_else-none none = refl
or_else-none (some a) = refl

pub cleared_finds {ℓ} :
    {V : Type ℓ} (c : ℕ) → IsPower c → (k : Bytes) → find_value (cleared {V = V} c) c k ≡ none
cleared_finds c p k =
    find_value-first_value c (cleared c) (cleared-IsSlots p) k ∙ first_value-cleared c k

pub le-mul : (s c b : ℕ) → 1 ≤ s → s * c ≤ b → c ≤ b
le-mul zero c b p h = absurd (omega (arith, p))
le-mul (suc s) c b p h = omega (arith, h)

-- Moving to `c` slots, when there is memory for them.
module _ {ℓ} {V : Type ℓ} (size : ℕ) (gc_alloc : ℕ → Bool) (t : Table V) (c : ℕ) (power : IsPower c)
    (least : 8 ≤ c) where
  rehash_given :
      gc_alloc (size * c % 2 ^ 64) ≡ true
      → table_rehash size gc_alloc t c
        ≡ record t { cap = c; entries = copy_slots c (cleared c) t.entries }
  unfolding table_rehash
  rehash_given h = rw (table_cap-IsPower power least) (rw h refl)

  pub rehash_refused : gc_alloc (size * c % 2 ^ 64) ≡ false → table_rehash size gc_alloc t c ≡ t
  unfolding table_rehash
  rehash_refused h = rw (table_cap-IsPower power least) (rw h refl)

  moved :
      used t.entries ≤ c
      → Apart t.entries
      → Copied c (cleared c) t.entries (copy_slots c (cleared c) t.entries)
  moved room apart =
      copy_slots-Copied c t.entries (cleared c) (cleared-IsSlots power)
        (omega (arith, room, used-cleared V c)) apart (λ k w h. cleared_finds c power k)

-- What a table holds, beside its capacity.
pub record Same {ℓ} {V : Type ℓ} (t t' : Table V) : Type ℓ where
  pub counts : t'.count ≡ t.count
  pub finds : (k : Bytes) → table_find t' k ≡ table_find t k

-- No block is larger than the address space.
pub record IsBounded (gc_alloc : ℕ → Bool) : Type 0 where
  pub bound : (n : ℕ) → gc_alloc n ≡ true → n ≤ 2 ^ 48

pub find_live {ℓ} :
    {V : Type ℓ} (t : Table V)
    → 8 ≤ t.cap
    → (k : Bytes) → table_find t k ≡ find_value t.entries t.cap k
unfolding table_find
find_live t h k = ground (arith, h)

pub table_find-first_value {ℓ} :
    {V : Type ℓ} (size : ℕ) (t : Table V)
    → IsTable size t
    → (k : Bytes) → table_find t k ≡ first_value t.entries k
unfolding table_find first_value
table_find-first_value size t (IsTable.unborn c _ e) k = rw c (rw e refl)
table_find-first_value size t (IsTable.live least _ _ _ v) k =
    find_live t least k ∙ find_value-first_value t.cap t.entries v k

module _ {ℓ} {V : Type ℓ} (size : ℕ) (positive : 1 ≤ size) (small : size ≤ 2 ^ 10)
    (gc_alloc : ℕ → Bool) (heap : IsBounded gc_alloc) where
  -- The table that a rehash makes when it gets the memory.
  pub rehash_live :
      (t : Table V) (c : ℕ)
      → IsPower c
      → 8 ≤ c
      → size * c < 2 ^ 64
      → gc_alloc (size * c) ≡ true
      → t.count ≡ used t.entries
      → t.count < c
      → Apart t.entries
      → IsTable size (table_rehash size gc_alloc t c)
        × ((table_rehash size gc_alloc t c).cap ≡ c)
        × ((table_rehash size gc_alloc t c).count ≡ t.count)
        × ((k : Bytes) → table_find (table_rehash size gc_alloc t c) k ≡ first_value t.entries k)
  rehash_live t c p least fits given counted room apart =
      let exact : size * c % 2 ^ 64 ≡ size * c = omega (arith, fits) in
      let made = rehash_given size gc_alloc t c p least (rw exact given) in
      let m = moved size gc_alloc t c p least (omega (arith, counted, room)) apart in
      let new = copy_slots c (cleared c) t.entries in
      let valid : IsTable size (record t { cap = c; entries = new }) =
        IsTable.live least (heap.bound (size * c) given)
          (omega (arith, counted, m.counted, used-cleared V c)) room m.valid in
      rw made (
        valid,
        refl,
        refl,
        λ k.
            find_live (record t { cap = c; entries = new }) least k
            ∙ m.finds k
            ∙ ap (or_else (first_value t.entries k)) (cleared_finds c p k)
            ∙ or_else-none (first_value t.entries k),
      )
