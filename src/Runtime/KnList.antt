-- ===== src/Runtime/KnList.antt =====
-- The lists of the runtime (libs/runtime/src/kn_runtime.c, __kn_list_new to __kn_list_index_of).
-- `tags` and `payloads`, which are always replaced and written together, are one array of pairs,
-- `items`, of length `cap`; it is empty while they are null. New memory is zero. `index_of` gives
-- no index where the code gives -1.
pub mod Arrays
pub mod Contents
pub mod Reserve
pub mod Laws
pub mod Elements
pub mod Search
use kinal.Prelude.{
  ℕ, zero, suc, ◌+◌, ◌-◌, ◌*◌, ◌%◌, ◌^◌, Bool, true, false, ◌&&◌, if◌then◌else◌, Option, none, some,
  List, [], ◌∷◌, ◌++◌, Bytes, length, get_or, take, set, ltb, leb, ◌==◌,
}
use kinal.Runtime.Strings.{rt_streq}
use kinal.Runtime.Table.{round_up}

-- A value with its tag.
pub record KnAny : Type 0 where
  pub tag : ℕ
  pub payload : ℕ

abbrev pub none_any : KnAny
none_any = record { tag = 0; payload = 0 }

pub record KnList : Type 0 where
  pub count : ℕ
  pub cap : ℕ
  pub items : List KnAny

-- A signed index.
pub data Index : Type 0 where
  at : ℕ → Index
  negative : Index

unfoldable pub list_new : KnList
list_new = record { count = 0; cap = 0; items = [] }

unfoldable pub zeroed : ℕ → List KnAny
zeroed zero = []
zeroed (suc n) = none_any ∷ zeroed n

-- The capacity that `list_reserve` asks for.
unfoldable pub reserved_cap : ℕ → ℕ → ℕ
reserved_cap cap want = round_up 64 (if cap == 0 then 8 else cap) want

-- The elements move up by one place, from the last of them on.
unfoldable pub move_up : ℕ → ℕ → List KnAny → List KnAny
move_up zero idx items = items
move_up (suc n) idx items =
    move_up n idx (set items (idx + n + 1) (get_or items (idx + n) none_any))

-- The elements behind `idx` move down by one place.
unfoldable pub move_down : ℕ → ℕ → List KnAny → List KnAny
move_down zero idx items = items
move_down (suc n) idx items =
    move_down n (idx + 1) (set items idx (get_or items (idx + 1) none_any))

abbrev pub clamp : Index → ℕ → ℕ
clamp Index.negative count = 0
clamp (Index.at i) count = if ltb count i then count else i

unfoldable pub list_get : KnList → ℕ → KnAny
list_get l index = if leb l.count index then none_any else get_or l.items index none_any

unfoldable pub list_set : KnList → ℕ → KnAny → KnList
list_set l index x = if leb l.count index then l else record l { items = set l.items index x }

unfoldable pub list_clear : KnList → KnList
list_clear l = record l { count = 0 }

unfoldable pub list_remove_at : KnList → ℕ → KnList × KnAny
list_remove_at l index = if leb l.count index then (l, none_any) else (
  record l { count = l.count - 1; items = move_down (l.count - (index + 1)) index l.items },
  get_or l.items index none_any,
)

unfoldable pub list_pop : KnList → KnList × KnAny
list_pop l =
    if l.count == 0
    then (l, none_any)
    else (record l { count = l.count - 1 }, get_or l.items (l.count - 1) none_any)

unfoldable pub list_is_empty : KnList → Bool
list_is_empty l = l.count == 0

-- `gc_alloc` says whether so many bytes can be had.
module _ (gc_alloc : ℕ → Bool) where
  unfoldable pub list_reserve : KnList → ℕ → KnList
  list_reserve l want =
      if leb want l.cap
      then l
      else let c = reserved_cap l.cap want in
        if gc_alloc (8 * c % 2 ^ 64) && gc_alloc (8 * c % 2 ^ 64)
        then record l { cap = c; items = take l.count l.items ++ zeroed (c - l.count) }
        else l

  unfoldable pub list_add : KnList → KnAny → KnList
  list_add l x =
      let r = list_reserve l (l.count + 1) in
      if leb r.cap r.count
      then r
      else record r { count = r.count + 1; items = set r.items r.count x }

  unfoldable pub list_insert : KnList → Index → KnAny → KnList
  list_insert l index x =
      let r = list_reserve l (l.count + 1) in
      let idx = clamp index l.count in
      if leb r.cap r.count
      then r
      else record r { count = r.count + 1; items = set (move_up (r.count - idx) idx r.items) idx x }

-- `texts` reads the text at an address.
module _ (texts : ℕ → Option Bytes) where
  unfoldable pub is_item : KnAny → KnAny → Bool
  is_item y x =
      if y.tag == x.tag
      then if x.tag == 5
        then rt_streq (texts y.payload) (texts x.payload)
        else y.payload == x.payload
      else false

  -- The loop from place `i` on, with the rounds left.
  unfoldable pub index_loop : ℕ → ℕ → List KnAny → KnAny → Option ℕ
  index_loop zero i items x = none
  index_loop (suc n) i items x =
      let rest = index_loop n (i + 1) items x in
      if is_item (get_or items i none_any) x then some i else rest

  unfoldable pub list_index_of : KnList → KnAny → Option ℕ
  list_index_of l x = index_loop l.count 0 l.items x

  unfoldable pub contains_loop : ℕ → ℕ → List KnAny → KnAny → Bool
  contains_loop zero i items x = false
  contains_loop (suc n) i items x =
      let rest = contains_loop n (i + 1) items x in
      if is_item (get_or items i none_any) x then true else rest

  unfoldable pub list_contains : KnList → KnAny → Bool
  list_contains l x = contains_loop l.count 0 l.items x
