-- ===== src/Source/Tests.antt =====
-- The lines of a small text.
use kinal.Prelude.{◌≤◌, true, ◌∷◌, ◌++◌, some, codes, Bytes, ◌≡◌, refl, arith}
use kinal.Source.Get.{shown, kn_source_get_line-shown}
use kinal.Source.Lines.{line}
use kinal.Source.{
  count_newlines, offsets_loop, kn_source_init, skip_bom, drop_end, line_span, kn_source_get_line,
}

abbrev text : Bytes
text = 239 ∷ 187 ∷ 191 ∷ codes "ab\r\n\ncd"

lines_shown :
    kn_source_get_line (some (kn_source_init true text)) 1
      ++ codes "|"
      ++ kn_source_get_line (some (kn_source_init true text)) 2
      ++ codes "|"
      ++ kn_source_get_line (some (kn_source_init true text)) 3
    ≡ codes "ab||cd"
unfolding kn_source_get_line kn_source_init line_span skip_bom drop_end offsets_loop count_newlines
lines_shown = refl

first_in_range : 0 ≤ count_newlines text
first_in_range = omega arith

kn_source_get_line-shown_example :
    kn_source_get_line (some (kn_source_init true text)) 1 ≡ shown 0 (line text 0)
kn_source_get_line-shown_example = kn_source_get_line-shown text 0 first_in_range
