-- ===== src/Runtime/Tests/Tables.antt =====
-- A dictionary, a set and the hash of a text.
use kinal.Prelude.{
  ℕ, ◌+◌, ◌*◌, ◌≤◌, Bool, true, false, ◌||◌, if◌then◌else◌, none, some, [], Bytes, codes, leb, ◌≡◌,
  refl, inl, inr, arith,
}
use kinal.Runtime.Dict.{
  KnDict, dict_get, contains, dict_set, dict_remove, set_add, table_keys, dict_entry_size,
  set_entry_size,
}
use kinal.Runtime.Dict.Laws.{Map, Reaches, put, dict_get-Reaches, Reaches-Refines}
use kinal.Runtime.Dict.Listing.{stored, table_keys-stored}
use kinal.Runtime.Dict.Sets.{Has, set_add-Has}
use kinal.Runtime.KnList.{KnAny, none_any}
use kinal.Runtime.KnList.Contents.{contents}
use kinal.Runtime.Strings.{rt_streq, rt_hash, hash_loop, streq_loop}
use kinal.Runtime.Table.{
  table_new, table_find, find_value, find_slot, probe, table_put, table_grow, table_rehash,
  table_cap, cleared, copy_slots, copy_slot, table_set, table_remove,
}
use kinal.Runtime.Table.Grow.{Given}
use kinal.Runtime.Table.Laws.{Stored, table_set-Stored}
use kinal.Runtime.Table.Moves.{IsBounded, IsTable}
use kinal.Runtime.Table.Reference.{Apart}
use kinal.Runtime.Table.Removal.{Removed, table_remove-Removed}

abbrev small_heap : ℕ → Bool
small_heap n = leb n 4096

small_heap-IsBounded : IsBounded small_heap
small_heap-IsBounded = record { bound = λ n h. ground arith }

hash_empty : rt_hash (some []) ≡ 1469598103934665603
unfolding rt_hash hash_loop
hash_empty = refl

hash_letter : rt_hash (some (codes "a")) ≡ 4953267810257967366
unfolding rt_hash hash_loop
hash_letter = refl

abbrev number : ℕ → KnAny
number n = record { tag = 1; payload = n }

abbrev key_a : Bytes
key_a = codes "a"

abbrev key_b : Bytes
key_b = codes "b"

-- The dictionary with two keys.
unfoldable two_keys : KnDict
two_keys =
    dict_set small_heap (dict_set small_heap table_new (some key_a) (number 1)) (some key_b)
      (number 2)

two_keys_count : two_keys.count ≡ 2
unfolding two_keys table_new dict_set dict_remove table_set table_remove table_put table_grow
    table_rehash table_cap cleared copy_slots copy_slot find_slot probe rt_hash hash_loop rt_streq
    streq_loop
two_keys_count = refl

two_keys_cap : two_keys.cap ≡ 8
unfolding two_keys table_new dict_set dict_remove table_set table_remove table_put table_grow
    table_rehash table_cap cleared copy_slots copy_slot find_slot probe rt_hash hash_loop rt_streq
    streq_loop
two_keys_cap = refl

abbrev numbers : Map
numbers = put key_b (number 2) (put key_a (number 1) (λ k. none))

one_key_room : (dict_set small_heap table_new (some key_a) (number 1)).cap ≡ 8
unfolding table_new dict_set dict_remove table_set table_remove table_put table_grow table_rehash
    table_cap cleared copy_slots copy_slot find_slot probe rt_hash hash_loop rt_streq streq_loop
one_key_room = refl

one_key_count : (dict_set small_heap table_new (some key_a) (number 1)).count ≡ 1
unfolding table_new dict_set dict_remove table_set table_remove table_put table_grow table_rehash
    table_cap cleared copy_slots copy_slot find_slot probe rt_hash hash_loop rt_streq streq_loop
one_key_count = refl

two_keys-Reaches : Reaches two_keys numbers
unfolding two_keys table_new
two_keys-Reaches =
    Reaches.set small_heap small_heap-IsBounded key_b (number 2)
      (inr (omega (arith, one_key_room, one_key_count)))
      (Reaches.set small_heap small_heap-IsBounded key_a (number 1) (inl refl) Reaches.new)

two_keys-IsTable : IsTable dict_entry_size two_keys
two_keys-IsTable = (Reaches-Refines two_keys-Reaches).valid

dict_get-Reaches_example :
    (dict_get two_keys (some key_a) ≡ elim (numbers key_a) [ none ↦ none_any | some v ↦ v ])
    × (contains two_keys (some key_a) ≡ elim (numbers key_a) [ none ↦ false | some v ↦ true ])
dict_get-Reaches_example = dict_get-Reaches two_keys numbers two_keys-Reaches key_a

table_set-Stored_example :
    Stored dict_entry_size two_keys key_a
      (number 3)
      (table_set dict_entry_size small_heap two_keys key_a (number 3))
table_set-Stored_example =
    table_set-Stored dict_entry_size (omega arith) (omega arith) small_heap small_heap-IsBounded
      two_keys key_a (number 3) two_keys-IsTable (inr (omega (arith, two_keys_count, two_keys_cap)))

two_keys_memory : small_heap (dict_entry_size * two_keys.cap) ≡ true
two_keys_memory = rw two_keys_cap refl

table_remove-Removed_example :
    Removed dict_entry_size two_keys key_a (table_remove dict_entry_size small_heap two_keys key_a)
table_remove-Removed_example =
    table_remove-Removed dict_entry_size small_heap two_keys key_a (omega arith) (omega arith)
      small_heap-IsBounded two_keys-IsTable two_keys_memory

-- The key that is left behind one that was taken out is found.
left_over : dict_get (dict_remove small_heap two_keys (some key_a)).0 (some key_b) ≡ number 2
unfolding dict_get table_find find_value two_keys table_new dict_set dict_remove table_set
    table_remove table_put table_grow table_rehash table_cap cleared copy_slots copy_slot find_slot
    probe rt_hash hash_loop rt_streq streq_loop
left_over = refl

no_keys-IsTable : IsTable {V = Unit {0}} set_entry_size table_new
unfolding table_new
no_keys-IsTable = IsTable.unborn refl refl refl

no_keys_given :
    Given {V = Unit {0}} set_entry_size
      (omega arith)
      (omega arith)
      small_heap
      small_heap-IsBounded
      table_new
unfolding table_new
no_keys_given = inl refl

set_add-Has_example :
    Has
      (set_add small_heap table_new (some key_a))
      (λ k. rt_streq (some key_a) (some k) || contains {V = Unit {0}} table_new (some k))
    × ((set_add small_heap table_new (some key_a)).count ≡ (
        if contains {V = Unit {0}} table_new (some key_a)
        then (table_new {V = Unit {0}}).count
        else (table_new {V = Unit {0}}).count + 1))
set_add-Has_example =
    set_add-Has small_heap small_heap-IsBounded table_new key_a no_keys-IsTable no_keys_given

-- The two keys have neighbouring slots, and are listed in the order of the slots.
address : Bytes → ℕ
address key = 1000

two_keys_plenty : (n : ℕ) → n ≤ 16 * two_keys.count + 64 → small_heap n ≡ true
two_keys_plenty n h = ground (arith, two_keys_count)

table_keys-stored_example :
    (contents (table_keys small_heap address two_keys)
      ≡ stored (λ e. record { tag = 5; payload = address e.key }) two_keys.entries)
    × ((table_keys small_heap address two_keys).count ≡ two_keys.count)
    × Apart two_keys.entries
table_keys-stored_example =
    table_keys-stored small_heap small_heap-IsBounded address dict_entry_size two_keys
      two_keys-IsTable two_keys_plenty
