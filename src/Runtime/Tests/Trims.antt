-- ===== src/Runtime/Tests/Trims.antt =====
-- A text of two lines and a blank one, trimmed and split into its lines.
use kinal.CString.{c_string}
use kinal.Prelude.{
  ℕ, ◌≤◌, ◌<◌, Bool, true, some, [], ◌∷◌, ◌++◌, Bytes, map, codes, leb, ◌≡◌, refl, arith, length,
}
use kinal.Runtime.KnList.{Index}
use kinal.Runtime.Text.{text, rt_slice_gc, text_split}
use kinal.Runtime.Text.Replace.{or_empty}
use kinal.Runtime.Text.Trim.{
  trim_begin, trim_end, char_upper, char_lower, text_trim, text_slice, text_to_upper, text_to_lower,
  line_part, lines_loop, text_lines,
}
use kinal.Runtime.Text.Trim.Lines.{chomp, text_lines-text_split}
use kinal.Runtime.Text.Trim.Trimmed.{IsTrimmed, text_trim-IsTrimmed}

abbrev trim_heap : ℕ → Bool
trim_heap n = leb n 1000

trim_heap_plenty : (n : ℕ) → n ≤ 1000 → trim_heap n ≡ true
trim_heap_plenty n h = ground arith

abbrev two_lines : Bytes
two_lines = codes "  Ab" ++ (13 ∷ 10 ∷ codes "c ") ++ (13 ∷ 10 ∷ 9 ∷ 0 ∷ codes "d")

two_lines_trimmed :
    text_trim trim_heap (some two_lines) ≡ some (codes "Ab" ++ (13 ∷ 10 ∷ codes "c"))
unfolding text_trim text c_string trim_begin trim_end rt_slice_gc
two_lines_trimmed = refl

two_lines_lines :
    text_lines trim_heap (some two_lines)
    ≡ some (codes "  Ab") ∷ some (codes "c ") ∷ some (9 ∷ []) ∷ []
unfolding text_lines text c_string lines_loop line_part rt_slice_gc
two_lines_lines = refl

word_upper : text_to_upper trim_heap (some (codes "aZ1{")) ≡ codes "AZ1{"
unfolding text_to_upper text c_string char_upper
word_upper = refl

word_lower : text_to_lower trim_heap (some (codes "aZ1[")) ≡ codes "az1["
unfolding text_to_lower text c_string char_lower
word_lower = refl

-- A length beyond the end reaches to the end.
rest_sliced :
    text_slice trim_heap (some (codes "abc")) (Index.at 1) (Index.at 9) ≡ some (codes "bc")
unfolding text_slice text c_string rt_slice_gc
rest_sliced = refl

two_lines_short : length (text (some two_lines)) < 1000
unfolding text c_string
two_lines_short = omega arith

text_trim-IsTrimmed_example :
    (t : Bytes) × (text_trim trim_heap (some two_lines) ≡ some t)
    × IsTrimmed (text (some two_lines)) t
text_trim-IsTrimmed_example =
    text_trim-IsTrimmed trim_heap 1000 trim_heap_plenty (omega arith) two_lines two_lines_short

text_lines-text_split_example :
    map or_empty (text_lines trim_heap (some two_lines))
    ≡ map chomp (map or_empty (text_split trim_heap (some two_lines) (some (10 ∷ []))))
text_lines-text_split_example =
    text_lines-text_split trim_heap 1000 trim_heap_plenty (omega arith) (some two_lines)
      two_lines_short
