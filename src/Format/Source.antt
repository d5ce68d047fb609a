-- ===== src/Format/Source.antt =====
-- `fmt_format_source`: a whole source. `src_len` is the length of `src`; the lexer stops at a NUL.
use kinal.CString.{head0}
use kinal.Format.Buffer.{fmt_buf_last_is_newline, fmt_trim_trailing_spaces}
use kinal.Format.Emit.{fmt_emit_token}
use kinal.Format.Gap.{fmt_process_gap}
use kinal.Format.State.{FmtState, append_out, fmt_emit_newline}
use kinal.Lexer.State.{has_bom}
use kinal.Lexer.Token.{TokenType, Token}
use kinal.Lexer.Tokens.{is_eof, tokens_of}
use kinal.Prelude.{
  ℕ, ◌+◌, ◌-◌, Bool, true, false, not, List, [], ◌∷◌, some, ltb, ◌==◌, if◌then◌else◌, Bytes, length,
  take, drop, codes,
}

unfoldable pub fmt_is_crlf : Bytes → Bool
fmt_is_crlf [] = true
fmt_is_crlf (c ∷ s) =
    if c == b'\r' then head0 s == b'\n' else if c == b'\n' then false else fmt_is_crlf s

abbrev pub slice : Bytes → ℕ → ℕ → Bytes
slice s begin end = take (end - begin) (drop begin s)

-- `kn_memset(&st, 0, sizeof(st))`, and the fields that are set behind it. A token of zeros is a
-- `TOK_EOF`.
abbrev pub fmt_initial : Bytes → FmtState
fmt_initial src = record {
  out = record { bytes = []; cap = 0 };
  src = src;
  newline = if fmt_is_crlf src then codes "\r\n" else codes "\n";
  indent = 0;
  paren_depth = 0;
  bracket_depth = 0;
  line_start = true;
  pending_blank_line = false;
  force_space_before_next = false;
  has_prev = false;
  prev_was_case_label = false;
  prev = record { type = TokenType.tok_eof; start = 0; length = 0; line = 0; col = 0 };
}

abbrev pub next_token : Token → List Token → Token
next_token tok [] = tok
next_token tok (t ∷ ts) = t

abbrev pub gap_to : ℕ → ℕ → FmtState → FmtState
gap_to cursor start st =
    if ltb cursor start then fmt_process_gap st (slice st.src cursor start) else st

-- The loop over the tokens, with `cursor`.
unfoldable pub emit_loop : List Token → FmtState → ℕ → FmtState × ℕ
emit_loop [] st cursor = (st, cursor)
emit_loop (tok ∷ ts) st cursor =
    let a = gap_to cursor tok.start st in
    let later = emit_loop ts (fmt_emit_token a tok (next_token tok ts)) (tok.start + tok.length) in
    if is_eof tok then (a, tok.start) else later

-- The end of the function: the last line is trimmed and ends with a newline.
unfoldable pub fmt_finish : FmtState → Bytes
fmt_finish st =
    let a = record st { out = fmt_trim_trailing_spaces st.out } in
    let b = if not (fmt_buf_last_is_newline a.out) then fmt_emit_newline a else a in
    let c = record b { out = fmt_trim_trailing_spaces b.out } in
    let d = if not (fmt_buf_last_is_newline c.out) then append_out c c.newline else c in d.out.bytes

unfoldable pub bom_length : Bytes → ℕ
bom_length src = if has_bom src (length src) then 3 else 0

unfoldable pub fmt_format_source : Bytes → Bytes
fmt_format_source src =
    let cursor = bom_length src in
    let start = append_out (fmt_initial src) (take cursor src) in
    let (st, cursor') = emit_loop (tokens_of (some src)) start cursor in
    fmt_finish (gap_to cursor' (length src) st)
