-- ===== src/Runtime/Tests/Texts.antt =====
-- Texts that are searched, split, joined and replaced.
use kinal.CString.{c_string}
use kinal.Prelude.{
  ℕ, ◌≤◌, ◌<◌, Bool, true, false, Option, none, some, [], ◌∷◌, ◌++◌, Bytes, map, take, codes, leb,
  ◌==◌, ◌≡◌, refl, arith, length, if◌then◌else◌,
}
use kinal.Runtime.KnList.{KnAny, KnList}
use kinal.Runtime.Text.{
  text, rt_memcmp, is_at, find_loop, text_index_of, text_contains, count_loop, write_loop,
  replaced_length, part, rt_slice_gc, split_loop, text_split, text_replace, join_rest, join_parts,
  text_join, text_count, text_last_index_of, find_last, text_ends_with,
}
use kinal.Runtime.Text.Find.{Found, text_index_of-Found}
use kinal.Runtime.Text.Join.{text_join-text_split}
use kinal.Runtime.Text.Replace.{or_empty}
use kinal.Runtime.Text.Results.{text_replace-text_split}

abbrev text_heap : ℕ → Bool
text_heap n = leb n 1000

text_heap_plenty : (n : ℕ) → n ≤ 1000 → text_heap n ≡ true
text_heap_plenty n h = ground arith

-- What stands behind the NUL is not part of the text.
abbrev line : Bytes
line = codes "a--b--" ++ (0 ∷ codes "--")

abbrev dashes : Option Bytes
dashes = some (codes "--")

line_parts :
    text_split text_heap (some line) dashes ≡ some (codes "a") ∷ some (codes "b") ∷ some [] ∷ []
unfolding text_split text c_string split_loop is_at rt_memcmp rt_slice_gc
line_parts = refl

line_replaced : text_replace text_heap (some line) dashes (some (codes "+")) ≡ some (codes "a+b+")
unfolding text_replace text c_string count_loop write_loop is_at rt_memcmp replaced_length
line_replaced = refl

line_found : text_index_of (some line) dashes ≡ some 1
unfolding text_index_of text c_string find_loop is_at rt_memcmp
line_found = refl

line_last : text_last_index_of (some line) dashes ≡ some 4
unfolding text_last_index_of text c_string find_last is_at rt_memcmp
line_last = refl

line_ends : text_ends_with (some line) dashes ≡ true
unfolding text_ends_with text c_string is_at rt_memcmp
line_ends = refl

line_count : text_count (some line) dashes ≡ 2
unfolding text_count text c_string count_loop is_at rt_memcmp
line_count = refl

text_index_of-Found_example :
    Found (text (some line)) (text dashes) 0 (text_index_of (some line) dashes)
    × (text_contains (some line) dashes
        ≡ elim (text_index_of (some line) dashes) [ none ↦ false | some i ↦ true ])
text_index_of-Found_example = text_index_of-Found (some line) dashes

dashes_some : 0 < length (text dashes)
unfolding text c_string
dashes_some = omega arith

line_short : length (text (some line)) < 1000
unfolding text c_string
line_short = omega arith

result_short :
    length (
      join_parts (text (some (codes "+"))) (map or_empty (text_split text_heap (some line) dashes)))
    < 1000
unfolding text_split text c_string split_loop is_at rt_memcmp rt_slice_gc join_parts join_rest
result_short = omega arith

text_replace-text_split_example :
    text_replace text_heap (some line) dashes (some (codes "+"))
    ≡ some (
        join_parts
          (text (some (codes "+")))
          (map or_empty (text_split text_heap (some line) dashes)))
text_replace-text_split_example =
    text_replace-text_split text_heap 1000 text_heap_plenty (omega arith) line dashes
      (some (codes "+")) dashes_some line_short result_short

-- The parts of the line at three addresses.
abbrev part_texts : ℕ → Option Bytes
part_texts n = if n == 1 then some (codes "a") else if n == 2 then some (codes "b") else none

abbrev at_address : ℕ → KnAny
at_address n = record { tag = 5; payload = n }

abbrev part_list : KnList
part_list = record {
  count = 3;
  cap = 4;
  items = at_address 1 ∷ at_address 2 ∷ at_address 0 ∷ at_address 9 ∷ [];
}

part_list_holds :
    map (part part_texts) (take part_list.count part_list.items)
    ≡ map or_empty (text_split text_heap (some line) dashes)
unfolding part text_split text c_string split_loop is_at rt_memcmp rt_slice_gc
part_list_holds = refl

text_join-text_split_example : text_join text_heap part_texts part_list dashes ≡ text (some line)
text_join-text_split_example =
    text_join-text_split text_heap 1000 text_heap_plenty (omega arith) line dashes part_texts
      part_list line_short part_list_holds
