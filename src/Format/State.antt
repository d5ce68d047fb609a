-- ===== src/Format/State.antt =====
-- `KnFmtState` and the smallest steps that write.
use kinal.Format.Buffer.{
  FmtBuf, fmt_buf_append_char, fmt_buf_append, fmt_buf_last_is_space, fmt_trim_trailing_spaces,
}
use kinal.Lexer.Token.{Token}
use kinal.Prelude.{ℕ, zero, suc, Bool, true, false, not, ltb, if◌then◌else◌, Bytes, length, codes}

pub record FmtState : Type 0 where
  pub out : FmtBuf
  pub src : Bytes
  pub newline : Bytes
  pub indent : ℕ
  pub paren_depth : ℕ
  pub bracket_depth : ℕ
  pub line_start : Bool
  pub pending_blank_line : Bool
  pub force_space_before_next : Bool
  pub has_prev : Bool
  pub prev_was_case_label : Bool
  pub prev : Token

abbrev pub append_out : FmtState → Bytes → FmtState
append_out st s = record st { out = fmt_buf_append st.out s }

unfoldable pub indent_loop : ℕ → FmtBuf → FmtBuf
indent_loop zero b = b
indent_loop (suc n) b = indent_loop n (fmt_buf_append b (codes "    "))

unfoldable pub fmt_emit_indent : FmtState → FmtState
unfolding indent_loop
fmt_emit_indent st =
    if not st.line_start
    then st
    else record st { out = indent_loop st.indent st.out; line_start = false }

unfoldable pub fmt_emit_newline : FmtState → FmtState
fmt_emit_newline st = record st {
  out = fmt_buf_append (fmt_trim_trailing_spaces st.out) st.newline;
  line_start = true;
  force_space_before_next = false;
}

unfoldable pub newline_unless_start : FmtState → FmtState
newline_unless_start st = if not st.line_start then fmt_emit_newline st else st

unfoldable pub fmt_emit_blank_line_if_needed : FmtState → FmtState
unfolding newline_unless_start
fmt_emit_blank_line_if_needed st =
    let a = newline_unless_start st in
    let b = if ltb 0 (length a.out.bytes) then fmt_emit_newline a else a in
    if not st.pending_blank_line then st else record b { pending_blank_line = false }

unfoldable pub fmt_emit_space_if_needed : FmtState → FmtState
fmt_emit_space_if_needed st =
    if st.line_start
    then st
    else if fmt_buf_last_is_space st.out
    then st
    else record st { out = fmt_buf_append_char st.out b' ' }
