-- ===== src/Runtime/Dict.antt =====
-- The dictionaries and sets of the runtime (libs/runtime/src/kn_runtime.c, __kn_dict_new to
-- __kn_dict_values and __kn_set_new to __kn_set_values): the hash table at the two types of entry.
-- `address` is where the text of a key stands. A null key is `none`, and a null dictionary is left
-- out: every operation returns at once on one.
pub mod Laws
pub mod Sets
pub mod Listing
use kinal.Prelude.{
  ℕ, zero, suc, ◌+◌, Bool, true, false, if◌then◌else◌, Option, none, some, List, [], ◌∷◌, Bytes,
  ◌==◌,
}
use kinal.Runtime.KnList.{KnAny, none_any, KnList, list_new, list_add}
use kinal.Runtime.Table.{
  Entry, Slots, Table, table_new, table_find, table_set, table_remove, cleared,
}

-- The sizes of an entry with a value, and of one without.
abbrev pub dict_entry_size : ℕ
dict_entry_size = 32

abbrev pub set_entry_size : ℕ
set_entry_size = 16

abbrev pub KnDict : Type 0
KnDict = Table KnAny

abbrev pub KnSet : Type 0
KnSet = Table (Unit {0})

unfoldable pub dict_get : KnDict → Option Bytes → KnAny
dict_get d none = none_any
dict_get d (some key) = elim (table_find d key) [ none ↦ none_any | some v ↦ v ]

module _ {V : Type 0} where
  unfoldable pub contains : Table V → Option Bytes → Bool
  contains d none = false
  contains d (some key) = elim (table_find d key) [ none ↦ false | some v ↦ true ]

  unfoldable pub is_empty : Table V → Bool
  is_empty d = d.count == 0

unfoldable pub set_clear : KnSet → KnSet
set_clear s = record s { count = 0; entries = if s.cap == 0 then s.entries else cleared s.cap }

module _ (gc_alloc : ℕ → Bool) where
  unfoldable pub dict_set : KnDict → Option Bytes → KnAny → KnDict
  dict_set d none v = d
  dict_set d (some key) v = table_set dict_entry_size gc_alloc d key v

  unfoldable pub dict_remove : KnDict → Option Bytes → KnDict × Bool
  dict_remove d none = (d, false)
  dict_remove d (some key) = table_remove dict_entry_size gc_alloc d key

  unfoldable pub set_add : KnSet → Option Bytes → KnSet
  set_add s none = s
  set_add s (some key) = table_set set_entry_size gc_alloc s key tt

  unfoldable pub set_remove : KnSet → Option Bytes → KnSet × Bool
  set_remove s none = (s, false)
  set_remove s (some key) = table_remove set_entry_size gc_alloc s key

  -- The loop that lists the entries in use.
  unfoldable pub list_entries {ℓ} : {V : Type ℓ} → (Entry V → KnAny) → Slots V → KnList → KnList
  list_entries item [] l = l
  list_entries item (none ∷ es) l = list_entries item es l
  list_entries item (some e ∷ es) l = list_entries item es (list_add gc_alloc l (item e))

  unfoldable pub table_keys {ℓ} : {V : Type ℓ} → (Bytes → ℕ) → Table V → KnList
  table_keys address t =
      list_entries (λ e. record { tag = 5; payload = address e.key }) t.entries list_new

  unfoldable pub dict_values : KnDict → KnList
  dict_values d = list_entries (λ e. e.value) d.entries list_new
