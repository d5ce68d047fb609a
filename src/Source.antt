-- ===== src/Source.antt =====
-- The line table of a source file (apps/kinal/src/kn_source.c, apps/kinal/include/kn/source.h).
-- A text is the byte list of its `len` bytes; the path, which no operation reads, is left out. A
-- failed allocation of the table is the flag `has_memory`, and frees set the table to `none`.
pub mod Lines
pub mod Get
mod Tests
use kinal.Prelude.{
  ℕ, zero, suc, ◌+◌, ◌-◌, Bool, true, false, ◌&&◌, ◌||◌, if◌then◌else◌, Option, none, some, List,
  [], ◌∷◌, Bytes, ltb, leb, ◌==◌, get_or, take, drop, length,
}

pub record KnSource : Type 0 where
  pub text : Bytes
  pub len : ℕ
  pub line_offsets : Option (List ℕ)
  pub line_count : ℕ

-- The first loop: one line more for each '\\n'.
unfoldable pub count_newlines : Bytes → ℕ
count_newlines [] = 0
count_newlines (c ∷ s) = (if c == 10 then 1 else 0) + count_newlines s

-- The second loop, at the offset `i`: the start of the line behind each '\\n', while the table has
-- `room`.
unfoldable pub offsets_loop : ℕ → ℕ → Bytes → List ℕ
offsets_loop room i [] = []
offsets_loop zero i (c ∷ s) = []
offsets_loop (suc room) i (c ∷ s) = elim (c == 10) [
  | true ↦ (i + 1) ∷ offsets_loop room (i + 1) s
  | false ↦ offsets_loop (suc room) (i + 1) s
]

unfoldable pub kn_source_init : Bool → Bytes → KnSource
kn_source_init has_memory text =
    let count = 1 + count_newlines text in
    if has_memory
    then record {
      text = text;
      len = length text;
      line_offsets = some (0 ∷ offsets_loop (count - 1) 0 text);
      line_count = count;
    }
    else record { text = text; len = length text; line_offsets = none; line_count = 0 }

unfoldable pub kn_source_free : KnSource → KnSource
kn_source_free src = record src { line_offsets = none; line_count = 0 }

abbrev pub at : Bytes → ℕ → ℕ
at s i = get_or s i 0

-- The start of the first line is behind a byte order mark.
unfoldable pub skip_bom : Bytes → ℕ → ℕ → ℕ → ℕ
skip_bom text line start end =
    if line == 1
      && leb (start + 3) end
      && at text start == 239
      && at text (start + 1) == 187
      && at text (start + 2) == 191
    then start + 3
    else start

-- One byte `c` less at the end of a line that is not empty.
unfoldable pub drop_end : Bytes → ℕ → ℕ → ℕ → ℕ
drop_end text c start end = if ltb start end && at text (end - 1) == c then end - 1 else end

-- The start and the length of a line, from the table.
unfoldable pub line_span : KnSource → List ℕ → ℕ → ℕ × ℕ
line_span src offsets line =
    let start = get_or offsets (line - 1) 0 in
    let end = if ltb line src.line_count then get_or offsets line 0 else src.len in
    let from = skip_bom src.text line start end in
    let last = drop_end src.text 13 from (drop_end src.text 10 from end) in (from, last - from)

unfoldable pub kn_source_get_line : Option KnSource → ℕ → Bytes
kn_source_get_line none line = []
kn_source_get_line (some src) line = elim src.line_offsets [
  | none ↦ []
  | some offsets ↦
      if line == 0 || ltb src.line_count line
      then []
      else let (start, n) = line_span src offsets line in take n (drop start src.text)
]
