-- ===== src/Format/Tests.antt =====
-- The formatter on small sources.
use kinal.CString.{NoNul, c_string-NoNul, kn_strlen, c_string, kn_strncmp}
use kinal.Format.Newline.{format-last_newline}
use kinal.Format.Room.{fmt_buf_reserve-le}
use kinal.Format.Buffer.{last_is, FmtBuf, fmt_buf_reserve}
use kinal.Prelude.{length, ◌≤◌}
use kinal.Format.Buffer.{
  fmt_buf_append, fmt_buf_append_char, fmt_trim_trailing_spaces, fmt_buf_last_is_space,
  fmt_buf_last_is_newline,
}
use kinal.Format.Classes.{
  fmt_token_is_word, fmt_token_can_end_expr, fmt_token_is_initializer_context,
  fmt_token_is_binary_operator, fmt_token_is_control_with_paren, fmt_token_is_ambiguous_operator,
}
use kinal.Format.Emit.{
  token_text, fmt_need_space_before, fmt_token_is_block_brace, fmt_emit_token, closes, opens,
  follows_rbracket, starts_line, before_rbrace,
}
use kinal.Format.Gap.{fmt_process_gap}
use kinal.Format.Source.{
  fmt_initial, fmt_format_source, fmt_is_crlf, bom_length, emit_loop, fmt_finish,
}
use kinal.Format.Ink.Gaps.{NoLoneReturn}
use kinal.Format.Ink.Sources.{last_length, last_start, format-ink, format-ink_truncated}
use kinal.Format.Ink.{ink}
use kinal.Format.Spaces.{EndsWhite, IsNewline, emit_token-parts_words}
use kinal.Format.State.{
  FmtState, append_out, fmt_emit_indent, fmt_emit_newline, fmt_emit_blank_line_if_needed,
  fmt_emit_space_if_needed, newline_unless_start,
}
use kinal.Lexer.Keywords.{kw_lookup}
use kinal.Lexer.Scan.{
  lex_next, is_word, has_closing_quote_before_eol, ends_bad_string, operator_two, operator_one,
}
use kinal.Lexer.State.{lex_init, has_bom, lex_advance, lex_peek, is_hex_digit}
use kinal.Lexer.Token.{TokenType, Token, ◌is◌}
use kinal.Lexer.Tokens.{tokens_of}
use kinal.Prelude.{
  ℕ, ◌+◌, ◌<◌, true, false, some, ◌++◌, codes, Bytes, All, take, drop, ◌≡◌, ◌≢◌, refl, inl, arith,
}

-- The formatter, computed.
formatted : Bytes → Bytes
unfolding fmt_format_source tokens_of lex_init has_bom lex_advance lex_peek is_hex_digit is_word
    has_closing_quote_before_eol ends_bad_string operator_two operator_one lex_next kn_strlen
    c_string kw_lookup kn_strncmp fmt_process_gap fmt_emit_token fmt_need_space_before
    fmt_token_is_block_brace closes opens follows_rbracket starts_line before_rbrace fmt_emit_indent
    fmt_emit_newline fmt_emit_blank_line_if_needed fmt_emit_space_if_needed newline_unless_start
    fmt_buf_append fmt_buf_append_char fmt_trim_trailing_spaces fmt_buf_last_is_space
    fmt_buf_last_is_newline fmt_token_is_word fmt_token_can_end_expr
    fmt_token_is_initializer_context fmt_token_is_binary_operator fmt_token_is_control_with_paren
    fmt_token_is_ambiguous_operator ◌is◌ fmt_is_crlf bom_length emit_loop fmt_finish
formatted = fmt_format_source

abbrev branches : Bytes
branches = codes "If(x==1){y=2;// hi\n\n\nz=-3;}\n"

branches_formatted :
    formatted branches ≡ codes "If (x == 1)\n{\n    y = 2;\n    // hi\n\n    z = -3;\n}\n"
unfolding formatted
branches_formatted = refl

-- Two minus signs run together, and so do the words of a `Foreach`; what is behind the `#` is lost.
abbrev fused : Bytes
fused = codes "x = - -y;\nForeach (a In b) {}\nc # d;\n"

fused_formatted : formatted fused ≡ codes "x = --y;\nForeach(aInb)\n{\n}\nc\n"
unfolding formatted
fused_formatted = refl

abbrev clean : Bytes
clean = codes "x=1; // a\n"

clean-NoNul : NoNul clean
unfolding c_string
clean-NoNul = c_string-NoNul clean

clean-NoLoneReturn : NoLoneReturn clean
clean-NoLoneReturn = ground arith

clean_whole : last_length (tokens_of (some clean)) ≡ 0
unfolding tokens_of lex_init has_bom lex_advance lex_peek is_hex_digit is_word
    has_closing_quote_before_eol ends_bad_string operator_two operator_one lex_next kn_strlen
    c_string kw_lookup kn_strncmp
clean_whole = refl

format-ink_example : ink (fmt_format_source clean) ≡ ink clean
format-ink_example = format-ink clean clean-NoNul clean-NoLoneReturn clean_whole

abbrev cut : Bytes
cut = codes "c # d;"

cut-NoNul : NoNul cut
unfolding c_string
cut-NoNul = c_string-NoNul cut

cut-NoLoneReturn : NoLoneReturn cut
cut-NoLoneReturn = ground arith

cut_short : 0 < last_length (tokens_of (some cut))
unfolding tokens_of lex_init has_bom lex_advance lex_peek is_hex_digit is_word
    has_closing_quote_before_eol ends_bad_string operator_two operator_one lex_next kn_strlen
    c_string kw_lookup kn_strncmp
cut_short = omega arith

cut_tail : All (λ c. c ≢ b'/') (drop (last_start (tokens_of (some cut))) cut)
unfolding tokens_of lex_init has_bom lex_advance lex_peek is_hex_digit is_word
    has_closing_quote_before_eol ends_bad_string operator_two operator_one lex_next kn_strlen
    c_string kw_lookup kn_strncmp
cut_tail = ground arith

format-ink_truncated_example :
    ink (fmt_format_source cut) ≡ ink (take (last_start (tokens_of (some cut))) cut)
format-ink_truncated_example =
    format-ink_truncated cut cut-NoNul cut-NoLoneReturn cut_short cut_tail

abbrev words : Bytes
words = codes "Return  value;\n"

abbrev word_at : TokenType → ℕ → ℕ → Token
word_at t start n = record { type = t; start = start; length = n; line = 1; col = start + 1 }

abbrev returned : FmtState
returned = record (append_out (fmt_initial words) (codes "Return")) {
  line_start = false;
  has_prev = true;
  prev = word_at TokenType.tok_return 0 6;
}

words_newline : IsNewline returned.newline
unfolding fmt_is_crlf
words_newline = inl refl

return_is_word : fmt_token_is_word TokenType.tok_return ≡ true
unfolding fmt_token_is_word
return_is_word = refl

id_is_word : fmt_token_is_word TokenType.tok_id ≡ true
unfolding fmt_token_is_word
id_is_word = refl

emit_token-parts_words_example :
    (front : Bytes) × ((fmt_emit_token returned
        (word_at TokenType.tok_id 8 5)
        (word_at TokenType.tok_semi 13 1)).out.bytes
      ≡ front ++ token_text words (word_at TokenType.tok_id 8 5))
    × EndsWhite front
emit_token-parts_words_example =
    emit_token-parts_words returned (word_at TokenType.tok_id 8 5) (word_at TokenType.tok_semi 13 1)
      words_newline refl refl return_is_word id_is_word

format-last_newline_example : last_is b'\n' (fmt_format_source fused) ≡ true
format-last_newline_example = format-last_newline fused

abbrev small_buffer : FmtBuf
small_buffer = record { bytes = codes "ab"; cap = 3 }

fmt_buf_reserve-le_example :
    (length small_buffer.bytes + 5000 + 1 ≤ (fmt_buf_reserve small_buffer 5000).cap)
    × ((fmt_buf_reserve small_buffer 5000).bytes ≡ small_buffer.bytes)
fmt_buf_reserve-le_example = fmt_buf_reserve-le small_buffer 5000 (omega arith)
