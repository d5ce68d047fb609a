-- ===== src/Runtime/Text/Trim.antt =====
-- Trimming, the case of letters and the lines of a text (libs/runtime/src/kn_runtime.c,
-- __kn_text_trim, __kn_text_to_upper, __kn_text_to_lower,
-- __kn_text_slice, __kn_text_lines).
pub mod Trimmed
pub mod Lines
pub mod Slice
use kinal.Prelude.{
  ℕ, zero, suc, ◌+◌, ◌-◌, ◌%◌, ◌^◌, ◌≤◌, ◌<◌, Bool, true, false, ◌&&◌, ◌||◌, if◌then◌else◌, Option,
  none, some, List, [], ◌∷◌, Bytes, length, get_or, take, drop, map, ltb, leb, ◌==◌,
}
use kinal.Runtime.KnList.{Index}
use kinal.Runtime.Text.{text, rt_slice_gc}

abbrev pub is_blank : ℕ → Bool
is_blank c = c == 32 || c == 9 || c == 13 || c == 10

-- The first loop: the place of the first byte from `b` on that is not blank.
unfoldable pub trim_begin : ℕ → Bytes → ℕ → ℕ
trim_begin zero s b = b
trim_begin (suc n) s b =
    let rest = trim_begin n s (b + 1) in
    if ltb b (length s) && is_blank (get_or s b 0) then rest else b

-- The second, from the end down to `b`.
unfoldable pub trim_end : Bytes → ℕ → ℕ → ℕ
trim_end s b zero = zero
trim_end s b (suc e) =
    let rest = trim_end s b e in if ltb b (suc e) && is_blank (get_or s e 0) then rest else suc e

unfoldable pub char_upper : ℕ → ℕ
char_upper c = if leb 97 c && leb c 122 then c - 32 else c

unfoldable pub char_lower : ℕ → ℕ
char_lower c = if leb 65 c && leb c 90 then c + 32 else c

abbrev pub offset : Index → ℕ
offset Index.negative = 0
offset (Index.at i) = i

module _ (gc_alloc : ℕ → Bool) where
  unfoldable pub text_slice : Option Bytes → Index → Index → Option Bytes
  text_slice none start len = some []
  text_slice (some m) start len = rt_slice_gc gc_alloc (text (some m)) (offset start) (offset len)

  unfoldable pub text_trim : Option Bytes → Option Bytes
  text_trim none = some []
  text_trim (some m) =
      let s = text (some m) in
      let b = trim_begin (length s) s 0 in
      let e = trim_end s b (length s) in rt_slice_gc gc_alloc s b (e - b)

  unfoldable pub text_to_upper : Option Bytes → Bytes
  text_to_upper none = []
  text_to_upper (some m) =
      let s = text (some m) in if gc_alloc ((length s + 1) % 2 ^ 64) then map char_upper s else []

  unfoldable pub text_to_lower : Option Bytes → Bytes
  text_to_lower none = []
  text_to_lower (some m) =
      let s = text (some m) in if gc_alloc ((length s + 1) % 2 ^ 64) then map char_lower s else []

  -- A line from `start` to `i`, without the carriage return at its end.
  unfoldable pub line_part : Bytes → ℕ → ℕ → Option Bytes
  line_part s start i =
      let len = i - start in
      let cr = ltb 0 len && (get_or s (start + len - 1) 0 == 13) in
      rt_slice_gc gc_alloc s start (if cr then len - 1 else len)

  -- The parts that `__kn_text_lines` adds to its list from `i` on.
  unfoldable pub lines_loop : ℕ → Bytes → ℕ → ℕ → List (Option Bytes)
  lines_loop zero s start i = []
  lines_loop (suc n) s start i =
      let found = line_part s start i ∷ lines_loop n s (i + 1) (i + 1) in
      let rest = lines_loop n s start (i + 1) in
      if ltb i (length s)
      then (if get_or s i 0 == 10 then found else rest)
      else if leb start (length s)
      then line_part s start (length s) ∷ []
      else []

  unfoldable pub text_lines : Option Bytes → List (Option Bytes)
  text_lines p = let s = text p in lines_loop (length s + 1) s 0 0
