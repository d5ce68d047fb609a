-- ===== src/Format/Gap.antt =====
-- `fmt_process_gap`: what stands between two tokens. The gap is the slice of the source from `begin`
-- to `end`, and a read beyond `end` is 0 where the code tests `p + 1 < end`.
use kinal.CString.{head0, tail0}
use kinal.Format.State.{
  FmtState, append_out, fmt_emit_indent, fmt_emit_newline, fmt_emit_blank_line_if_needed,
  fmt_emit_space_if_needed,
}
use kinal.Prelude.{
  ℕ, zero, suc, ◌+◌, Bool, true, false, not, ◌&&◌, ◌||◌, [], ◌∷◌, leb, ◌==◌, if◌then◌else◌, Bytes,
  length,
}

unfoldable pub is_line_end : ℕ → Bool
is_line_end c = c == b'\n' || c == b'\r'

-- The text of a line comment, and what stands behind it.
unfoldable pub line_text : Bytes → Bytes
line_text [] = []
line_text (c ∷ s) = if is_line_end c then [] else c ∷ line_text s

unfoldable pub line_rest : Bytes → Bytes
line_rest [] = []
line_rest (c ∷ s) = if is_line_end c then c ∷ s else line_rest s

-- One end of a line, of one byte or two.
unfoldable pub skip_line_end : Bytes → Bytes
skip_line_end [] = []
skip_line_end (c ∷ s) =
    if c == b'\r' && head0 s == b'\n' then tail0 s else if is_line_end c then s else c ∷ s

-- A block comment behind its opening, with its end mark if it has one, and what stands behind it.
unfoldable pub block_text : Bytes → Bytes
block_text [] = []
block_text (c ∷ s) = if c == b'*' && head0 s == b'/' then c ∷ b'/' ∷ [] else c ∷ block_text s

unfoldable pub block_rest : Bytes → Bytes
block_rest [] = []
block_rest (c ∷ s) = if c == b'*' && head0 s == b'/' then tail0 s else block_rest s

unfoldable pub has_line_end : Bytes → Bool
unfolding is_line_end
has_line_end [] = false
has_line_end (c ∷ s) = is_line_end c || has_line_end s

unfoldable pub note_blank_line : ℕ → FmtState → FmtState
note_blank_line newline_count st =
    if leb 2 newline_count then record st { pending_blank_line = true } else st

unfoldable pub space_unless_start : FmtState → FmtState
space_unless_start st = if not st.line_start then fmt_emit_space_if_needed st else st

-- The steps that write a comment, common to its two kinds; the flag asks for a newline behind it.
unfoldable pub emit_comment : ℕ → Bytes → Bool → FmtState → FmtState
unfolding note_blank_line space_unless_start
emit_comment newline_count text newline_behind st =
    let a = fmt_emit_blank_line_if_needed (note_blank_line newline_count st) in
    let b = append_out (fmt_emit_indent (space_unless_start a)) text in
    if newline_behind then fmt_emit_newline b else b

unfoldable pub gap_loop : ℕ → Bytes → ℕ → FmtState → FmtState
gap_loop zero g k st = note_blank_line k st
gap_loop (suc n) [] k st = note_blank_line k st
gap_loop (suc n) (c ∷ s) k st =
    let body = tail0 s in
    let line = c ∷ b'/' ∷ line_text body in
    let block = c ∷ b'*' ∷ block_text body in
    let after_line = gap_loop n (skip_line_end (line_rest body)) 0 (emit_comment k line true st) in
    let after_block =
      gap_loop n (block_rest body) 0 (emit_comment k block (has_line_end (block_text body)) st) in
    let after_return = gap_loop n (if head0 s == b'\n' then tail0 s else s) (k + 1) st in
    let after_newline = gap_loop n s (k + 1) st in
    let after = gap_loop n s k st in
    if c == b'/' && head0 s == b'/'
    then after_line
    else if c == b'/' && head0 s == b'*'
    then after_block
    else if c == b'\r'
    then after_return
    else if c == b'\n'
    then after_newline
    else after

-- Each round passes a byte at least.
unfoldable pub fmt_process_gap : FmtState → Bytes → FmtState
unfolding gap_loop is_line_end line_text line_rest skip_line_end block_text block_rest has_line_end
    emit_comment
fmt_process_gap st gap = gap_loop (length gap) gap 0 st
