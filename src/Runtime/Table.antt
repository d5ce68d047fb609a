-- ===== src/Runtime/Table.antt =====
-- The open-addressing hash table of the runtime (libs/runtime/src/kn_runtime.c), which the code
-- writes twice: for KnDict, whose entries hold a value, and for KnSet, whose entries hold a key
-- alone. `V` is what an entry holds beside its key. A slot with `used` cleared is `none`: whoever
-- clears `used` clears the rest of the entry too. `entries` is null while `cap` is 0.
pub mod Probe
pub mod Slots
pub mod Stored
pub mod Writes
pub mod Put
pub mod Reference
pub mod Rehash
pub mod Moves
pub mod Grow
pub mod Laws
pub mod Removal
use Prim.Native.Nat.{bit_and}
use kinal.Prelude.{
  ℕ, zero, suc, ◌+◌, ◌-◌, ◌*◌, ◌%◌, ◌^◌, Bool, true, false, if◌then◌else◌, Option, none, some, List,
  [], ◌∷◌, Bytes, length, get_or, set, ltb, leb, ◌==◌,
}
use kinal.Runtime.Strings.{rt_streq, rt_hash}

pub record Entry {ℓ} (V : Type ℓ) : Type ℓ where
  pub key : Bytes
  pub value : V

abbrev pub Slots {ℓ} : Type ℓ → Type ℓ
Slots V = List (Option (Entry V))

pub record Table {ℓ} (V : Type ℓ) : Type ℓ where
  pub count : ℕ
  pub cap : ℕ
  pub entries : Slots V

-- `while (p < new_cap) p <<= 1;`
unfoldable pub round_up : ℕ → ℕ → ℕ → ℕ
round_up zero p new_cap = p
round_up (suc n) p new_cap =
    let rest = round_up n (p * 2 % 2 ^ 64) new_cap in if ltb p new_cap then rest else p

unfoldable pub table_cap : ℕ → ℕ
unfolding round_up
table_cap new_cap =
    let c = if ltb new_cap 8 then 8 else new_cap in
    if bit_and c (c - 1) == 0 then c else round_up 64 8 c

module _ {ℓ} {V : Type ℓ} where
  abbrev pub slot_at : Slots V → ℕ → Option (Entry V)
  slot_at es i = get_or es i none

  -- The loop of `find_slot`, with the rounds left: whether the key is found, and the slot.
  unfoldable pub probe : ℕ → Slots V → Bytes → ℕ → ℕ → ℕ → Bool × ℕ
  probe zero es key idx mask n = (false, 0)
  probe (suc rounds) es key idx mask n =
      let rest = probe rounds es key idx mask (n + 1) in
      let i = bit_and (idx + n) mask in
      elim (slot_at es i) [
        | none ↦ (false, i)
        | some e ↦ if rt_streq (some e.key) (some key) then (true, i) else rest
      ]

  unfoldable pub find_slot : Slots V → ℕ → Bytes → Bool × ℕ
  find_slot es cap key =
      let mask = cap - 1 in probe cap es key (bit_and (rt_hash (some key)) mask) mask 0

  unfoldable pub cleared : ℕ → Slots V
  cleared zero = []
  cleared (suc n) = none ∷ cleared n

  -- An old slot is copied to where the new table has room for its key.
  unfoldable pub copy_slot : ℕ → Slots V → Option (Entry V) → Slots V
  copy_slot cap es none = es
  copy_slot cap es (some e) = set es (find_slot es cap e.key).1 (some e)

  unfoldable pub copy_slots : ℕ → Slots V → Slots V → Slots V
  unfolding copy_slot
  copy_slots cap es [] = es
  copy_slots cap es (s ∷ old) = copy_slots cap (copy_slot cap es s) old

  unfoldable pub table_new : Table V
  table_new = record { count = 0; cap = 0; entries = [] }

  abbrev pub value_of : Option (Entry V) → Option V
  value_of none = none
  value_of (some e) = some e.value

  -- What `get` and `contains` find under a key.
  unfoldable pub find_value : Slots V → ℕ → Bytes → Option V
  find_value es cap key =
      let at = find_slot es cap key in if at.0 then value_of (slot_at es at.1) else none

  unfoldable pub table_find : Table V → Bytes → Option V
  table_find t key = if t.cap == 0 then none else find_value t.entries t.cap key

  -- The slot that `set` writes keeps its key if it has the key already.
  abbrev pub kept_key : Bool → Option (Entry V) → Bytes → Bytes
  kept_key true (some e) key = e.key
  kept_key true none key = key
  kept_key false s key = key

  unfoldable pub table_put : Table V → Bytes → V → Table V
  table_put t key v =
      let at = find_slot t.entries t.cap key in
      record t {
        count = if at.0 then t.count else t.count + 1;
        entries =
            set t.entries at.1
              (some (record { key = kept_key at.0 (slot_at t.entries at.1) key; value = v }));
      }

  -- `size` is the size of an entry, `gc_alloc` says whether so many bytes can be had.
  module _ (size : ℕ) (gc_alloc : ℕ → Bool) where
    unfoldable pub table_rehash : Table V → ℕ → Table V
    table_rehash t new_cap =
        let c = table_cap new_cap in
        if gc_alloc (size * c % 2 ^ 64)
        then record t { cap = c; entries = copy_slots c (cleared c) t.entries }
        else t

    unfoldable pub table_grow : Table V → Table V
    table_grow t =
        if t.cap == 0
        then table_rehash t 8
        else if leb (t.cap * 7 % 2 ^ 64) ((t.count + 1) * 10 % 2 ^ 64)
        then table_rehash t (t.cap * 2 % 2 ^ 64)
        else t

    unfoldable pub table_set : Table V → Bytes → V → Table V
    table_set t key v = let t' = table_grow t in if t'.cap == 0 then t' else table_put t' key v

    unfoldable pub table_remove : Table V → Bytes → Table V × Bool
    table_remove t key =
        let at = find_slot t.entries t.cap key in
        if t.cap == 0
        then (t, false)
        else if at.0
        then (
          table_rehash (record t { count = t.count - 1; entries = set t.entries at.1 none }) t.cap,
          true,
        )
        else (t, false)
