-- ===== src/Runtime/Tests/Lists.antt =====
-- A list that is filled, changed and searched.
use kinal.Prelude.{
  ℕ, ◌<◌, Bool, true, false, Option, none, some, [], ◌∷◌, Bytes, codes, leb, ◌≡◌, refl, inl, arith,
  if◌then◌else◌,
}
use kinal.Runtime.KnList.{
  KnAny, KnList, Index, list_new, list_add, list_insert, list_reserve, reserved_cap, zeroed,
  list_index_of, list_contains, index_loop, is_item, move_up,
}
use kinal.Runtime.KnList.Contents.{contents, IsList}
use kinal.Runtime.KnList.Laws.{Holds, inserted, list_insert-insert_at}
use kinal.Runtime.KnList.Search.{IsFirst, list_index_of-IsFirst}
use kinal.Runtime.Strings.{rt_streq, streq_loop}
use kinal.Runtime.Table.{round_up}
use kinal.Runtime.Table.Moves.{IsBounded}

abbrev list_heap : ℕ → Bool
list_heap n = leb n 4096

list_heap-IsBounded : IsBounded list_heap
list_heap-IsBounded = record { bound = λ n h. ground arith }

abbrev letter : ℕ → KnAny
letter n = record { tag = 4; payload = n }

-- Three elements, the last of them put in front of the second.
unfoldable three : KnList
three =
    list_insert list_heap (list_add list_heap (list_add list_heap list_new (letter 97)) (letter 99))
      (Index.at 1) (letter 98)

three-contents : contents three ≡ letter 97 ∷ letter 98 ∷ letter 99 ∷ []
unfolding three contents list_new list_insert list_add list_reserve reserved_cap round_up zeroed
    move_up
three-contents = refl

three-IsList : IsList three
unfolding three list_new list_insert list_add list_reserve reserved_cap round_up zeroed move_up
three-IsList = record { within = omega arith; size = refl; small = omega arith }

three_room : three.count < three.cap
unfolding three list_new list_insert list_add list_reserve reserved_cap round_up zeroed move_up
three_room = omega arith

list_insert-insert_at_example :
    Holds
      (list_insert list_heap three Index.negative (letter 95))
      (inserted Index.negative (letter 95) (contents three))
list_insert-insert_at_example =
    list_insert-insert_at list_heap list_heap-IsBounded three three-IsList (inl three_room)
      Index.negative (letter 95)

-- Texts are compared by what stands at their addresses.
abbrev memory : ℕ → Option Bytes
memory n = if leb n 9 then some (codes "aa") else some (codes "b")

abbrev text : ℕ → KnAny
text n = record { tag = 5; payload = n }

texts_found : list_index_of memory (list_add list_heap three (text 7)) (text 8) ≡ some 3
unfolding three list_new list_insert list_add list_reserve reserved_cap round_up zeroed move_up
    list_index_of index_loop is_item rt_streq streq_loop
texts_found = refl

list_index_of-IsFirst_example :
    IsFirst memory three.items (letter 98) 0 three.count (list_index_of memory three (letter 98))
    × (list_contains memory three (letter 98)
        ≡ elim (list_index_of memory three (letter 98)) [ none ↦ false | some k ↦ true ])
list_index_of-IsFirst_example = list_index_of-IsFirst memory three (letter 98)
