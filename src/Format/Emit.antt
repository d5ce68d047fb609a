-- ===== src/Format/Emit.antt =====
-- `fmt_need_space_before` and `fmt_emit_token`, the latter in its parts.
use kinal.Format.Classes.{
  fmt_token_is_word, fmt_token_can_end_expr, fmt_token_is_initializer_context,
  fmt_token_is_binary_operator, fmt_token_is_control_with_paren, fmt_token_is_ambiguous_operator,
}
use kinal.Format.State.{
  FmtState, append_out, fmt_emit_indent, fmt_emit_newline, newline_unless_start,
  fmt_emit_blank_line_if_needed, fmt_emit_space_if_needed,
}
use kinal.Lexer.Token.{TokenType, Token, ◌is◌}
use kinal.Prelude.{
  ◌+◌, ◌-◌, Bool, true, false, not, ◌&&◌, ◌||◌, ltb, ◌==◌, if◌then◌else◌, Bytes, take, drop,
}

unfoldable pub fmt_token_is_block_brace : FmtState → Token → Bool
fmt_token_is_block_brace st current =
    if not (current.type is TokenType.tok_lbrace) || not st.has_prev
    then false
    else not (fmt_token_is_initializer_context st.prev.type)

-- A closing bracket, or punctuation, is never behind a space.
unfoldable pub closes : TokenType → Bool
closes t =
    t is TokenType.tok_rparen
    || t is TokenType.tok_rbracket
    || t is TokenType.tok_comma
    || t is TokenType.tok_semi
    || t is TokenType.tok_dot
    || t is TokenType.tok_colon

unfoldable pub opens : TokenType → Bool
opens t =
    t is TokenType.tok_lparen
    || t is TokenType.tok_lbracket
    || t is TokenType.tok_dot
    || t is TokenType.tok_at

unfoldable pub follows_rbracket : TokenType → Bool
follows_rbracket t =
    t is TokenType.tok_lparen
    || t is TokenType.tok_string
    || t is TokenType.tok_bad_string
    || t is TokenType.tok_char_lit
    || t is TokenType.tok_bad_char

unfoldable pub fmt_need_space_before : FmtState → Token → Bool
fmt_need_space_before st current =
    let prev = st.prev.type in
    let curr = current.type in
    if not st.has_prev || st.line_start
    then false
    else if closes curr
    then false
    else if opens prev
    then false
    else if st.force_space_before_next
    then true
    else if curr is TokenType.tok_lbracket
    then fmt_token_is_word prev && not (fmt_token_can_end_expr prev)
    else if curr is TokenType.tok_lparen
    then fmt_token_is_control_with_paren prev
    else if prev is TokenType.tok_rbracket && follows_rbracket curr
    then false
    else if fmt_token_is_word prev && fmt_token_is_word curr
    then true
    else if fmt_token_is_word curr
        && (prev is TokenType.tok_rparen || prev is TokenType.tok_rbracket)
    then true
    else if fmt_token_can_end_expr prev && fmt_token_is_binary_operator curr st.has_prev prev
    then true
    else if curr is TokenType.tok_lbrace
    then not (fmt_token_is_block_brace st current)
    else false

-- What `fmt_emit_token` does before a closing brace.
unfoldable pub before_rbrace : TokenType → FmtState → FmtState
before_rbrace t st =
    if t is TokenType.tok_rbrace
    then newline_unless_start
        (record st { indent = if ltb 0 st.indent then st.indent - 1 else st.indent })
    else st

unfoldable pub starts_line : TokenType → Bool
starts_line t = t is TokenType.tok_case || t is TokenType.tok_default || t is TokenType.tok_catch

-- The line breaks and blank lines before a token; the flag is `block_brace`.
unfoldable pub before_space : Bool → Token → FmtState → FmtState
before_space block_brace current st =
    let t = current.type in
    let a = before_rbrace t st in
    let b = if starts_line t then newline_unless_start a else a in
    let c = if block_brace then newline_unless_start b else b in fmt_emit_blank_line_if_needed c

unfoldable pub emit_before : Bool → Token → FmtState → FmtState
emit_before block_brace current st =
    let d = before_space block_brace current st in
    let e = if fmt_need_space_before d current then fmt_emit_space_if_needed d else d in
    fmt_emit_indent e

abbrev pub token_text : Bytes → Token → Bytes
token_text src t = take t.length (drop t.start src)

unfoldable pub emit_text : Token → FmtState → FmtState
emit_text current st = record (append_out st (token_text st.src current)) {
  line_start = false;
  force_space_before_next = false;
}

unfoldable pub emit_depths : TokenType → FmtState → FmtState
emit_depths t st =
    if t is TokenType.tok_lparen
    then record st { paren_depth = st.paren_depth + 1 }
    else if t is TokenType.tok_rparen && ltb 0 st.paren_depth
    then record st { paren_depth = st.paren_depth - 1 }
    else if t is TokenType.tok_lbracket
    then record st { bracket_depth = st.bracket_depth + 1 }
    else if t is TokenType.tok_rbracket && ltb 0 st.bracket_depth
    then record st { bracket_depth = st.bracket_depth - 1 }
    else st

abbrev force_space : FmtState → FmtState
force_space st = record st { force_space_before_next = true }

unfoldable pub emit_after : TokenType → TokenType → FmtState → FmtState
emit_after t next st =
    let binary = fmt_token_is_binary_operator t st.has_prev st.prev.type in
    if t is TokenType.tok_lbrace
    then fmt_emit_newline (record st { indent = st.indent + 1 })
    else if t is TokenType.tok_rbrace
    then (if not (next is TokenType.tok_semi)
          && not (next is TokenType.tok_comma)
          && not (next is TokenType.tok_eof)
        then fmt_emit_newline st
        else st)
    else if t is TokenType.tok_semi
    then (if st.paren_depth == 0 && st.bracket_depth == 0
        then fmt_emit_newline st
        else force_space st)
    else if t is TokenType.tok_comma
    then force_space st
    else if t is TokenType.tok_colon
    then (if st.prev_was_case_label then fmt_emit_newline st else force_space st)
    else if binary
    then force_space st
    else if fmt_token_is_ambiguous_operator t
    then (if binary then force_space st else st)
    else st

unfoldable pub fmt_emit_token : FmtState → Token → Token → FmtState
unfolding before_space emit_before emit_text emit_depths emit_after
fmt_emit_token st current next =
    let t = current.type in
    let block_brace = fmt_token_is_block_brace st current in
    let written = emit_text current (emit_before block_brace current st) in
    record (emit_after t next.type (emit_depths t written)) {
      prev_was_case_label = t is TokenType.tok_case || t is TokenType.tok_default;
      prev = current;
      has_prev = true;
    }
