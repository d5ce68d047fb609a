-- ===== src/Lexer/Scan.antt =====
-- `lex_next`, with a function for each of its branches.
pub mod Words
pub mod Operators
pub mod Next
pub mod Chars
pub mod Strings
use kinal.Lexer.Keywords.{kw_lookup}
use kinal.Lexer.State.{
  Lexer, byte_at, rest, lex_advance, lex_peek, left, is_alpha, is_digit, is_hex_digit,
  advance_while,
}
use kinal.Lexer.Token.{TokenType, Token}
use kinal.Lexer.Trivia.{lex_skip_ws}
use kinal.Prelude.{
  ℕ, ◌+◌, ◌-◌, ◌≤◌, zero, suc, Bool, true, false, not, ◌&&◌, ◌||◌, [], ◌∷◌, leb, ◌==◌,
  if◌then◌else◌, Bytes, drop, Option, some, none,
}

-- `start`, `line` and `col` are taken from the state at the token's first byte.
abbrev pub make_token : TokenType → Lexer → ℕ → Token
make_token t l n = record { type = t; start = l.pos; length = n; line = l.line; col = l.col }

-- The length is `l->pos - start` where the code says so.
abbrev pub token_from : TokenType → Lexer → Lexer → Token × Lexer
token_from t l l' = (make_token t l (l'.pos - l.pos), l')

unfoldable pub is_word : ℕ → Bool
unfolding is_alpha is_digit
is_word c = is_alpha c || is_digit c

unfoldable pub scan_word : Lexer → Lexer
scan_word l = advance_while is_word (left l) l

unfoldable pub lex_word : Lexer → Token × Lexer
unfolding scan_word
lex_word l = let l' = scan_word l in token_from (kw_lookup (rest l) (l'.pos - l.pos)) l l'

unfoldable pub scan_while : (ℕ → Bool) → Lexer → Lexer
scan_while test l = advance_while test (left l) l

unfoldable pub scan_fraction : Lexer → Lexer
scan_fraction l =
    if l.ch == b'.' && is_digit (lex_peek l) then scan_while is_digit (lex_advance l) else l

unfoldable pub scan_suffix : Lexer → Lexer
scan_suffix l = if l.ch == b'f' || l.ch == b'F' then lex_advance l else l

unfoldable pub is_hex_start : Lexer → Bool
is_hex_start l = l.ch == b'0' && (lex_peek l == b'x' || lex_peek l == b'X')

unfoldable pub scan_number : Lexer → Lexer
scan_number l = scan_suffix (
    if is_hex_start l
    then scan_while is_hex_digit (lex_advance (lex_advance l))
    else scan_fraction (scan_while is_digit l))

unfoldable pub lex_number : Lexer → Token × Lexer
unfolding scan_number scan_while scan_fraction scan_suffix is_hex_start
lex_number l = token_from TokenType.tok_number l (scan_number l)

-- The loop of `has_closing_quote_before_eol` over the bytes from `i` on; the flag is `escaped`.
unfoldable pub closing_quote : Bool → Bytes → Bool
closing_quote escaped [] = false
closing_quote escaped (c ∷ cs) =
    let more = closing_quote (not escaped && c == b'\\') cs in
    if c == b'\n' || c == b'\r' then false else if not escaped && c == b'"' then true else more

unfoldable pub has_closing_quote_before_eol : Lexer → Bool
unfolding closing_quote
has_closing_quote_before_eol l =
    if not (l.ch == b'"') then false else closing_quote false (drop (l.pos + 1) l.src)

unfoldable pub is_eol : ℕ → Bool
is_eol c = c == b'\n' || c == b'\r'

unfoldable pub ends_bad_string : ℕ → Bool
unfolding is_eol
ends_bad_string c = is_eol c || c == b')' || c == b';' || c == b'}'

-- What a backslash in a string passes.
unfoldable pub scan_escape : Lexer → Lexer
scan_escape l =
    let e = lex_advance l in if not (e.ch == 0) && not (is_eol e.ch) then lex_advance e else e

unfoldable pub string_loop : Bool → ℕ → Lexer → Lexer
string_loop terminated zero l = l
string_loop terminated (suc n) l =
    let after_escape = string_loop terminated n (scan_escape l) in
    let more = string_loop terminated n (lex_advance l) in
    if l.ch == 0
    then l
    else if terminated && l.ch == b'"'
    then lex_advance l
    else if not terminated && ends_bad_string l.ch
    then l
    else if l.ch == b'\\'
    then after_escape
    else if is_eol l.ch
    then l
    else more

unfoldable pub lex_string : Lexer → Token × Lexer
unfolding string_loop scan_escape
lex_string l =
    let terminated = has_closing_quote_before_eol l in
    let body = lex_advance l in
    token_from (if terminated then TokenType.tok_string else TokenType.tok_bad_string) l
      (string_loop terminated (left body) body)

unfoldable pub is_char_escape : ℕ → Bool
is_char_escape c =
    c == b'0'
    || c == b'b'
    || c == b'n'
    || c == b'r'
    || c == b't'
    || c == b'\\'
    || c == b'\''
    || c == b'"'

-- The variables of the loop in a character literal.
pub record CharScan : Type 0 where
  pub at : Lexer
  pub value_count : ℕ
  pub valid : Bool

unfoldable pub char_loop : ℕ → CharScan → CharScan
char_loop zero s = s
char_loop (suc n) s =
    let l = s.at in
    let e = lex_advance l in
    let plain = char_loop n (record s { at = e; value_count = s.value_count + 1 }) in
    let escaped = char_loop n (record {
      at = lex_advance e;
      value_count = s.value_count + 1;
      valid = s.valid && is_char_escape e.ch;
    }) in
    if l.ch == 0 || is_eol l.ch
    then s
    else if l.ch == b'\''
    then record s { at = e }
    else if l.ch == b'\\'
    then (if e.ch == 0 || is_eol e.ch
        then record s { at = e; value_count = s.value_count + 1 }
        else escaped)
    else plain

-- The two checks behind the loop.
unfoldable pub char_valid : Lexer → CharScan → Bool
char_valid l s =
    if leb s.at.pos (l.pos + 1) || not (byte_at s.at.src (s.at.pos - 1) == b'\'')
    then false
    else if not (s.value_count == 1)
    then false
    else s.valid

unfoldable pub lex_char : Lexer → Token × Lexer
unfolding char_loop char_valid is_char_escape is_eol
lex_char l =
    let body = lex_advance l in
    let s = char_loop (left body) (record { at = body; value_count = 0; valid = true }) in
    token_from (if char_valid l s then TokenType.tok_char_lit else TokenType.tok_bad_char) l s.at

-- The operators of two bytes, in the code's order.
unfoldable pub operator_two : ℕ → ℕ → Option TokenType
operator_two c n =
    if c == b'=' && n == b'='
    then some TokenType.tok_eq
    else if c == b'!' && n == b'='
    then some TokenType.tok_ne
    else if c == b'<' && n == b'='
    then some TokenType.tok_le
    else if c == b'>' && n == b'='
    then some TokenType.tok_ge
    else if c == b'<' && n == b'<'
    then some TokenType.tok_shl
    else if c == b'>' && n == b'>'
    then some TokenType.tok_shr
    else if c == b'&' && n == b'&'
    then some TokenType.tok_andand
    else if c == b'|' && n == b'|'
    then some TokenType.tok_oror
    else if c == b'+' && n == b'+'
    then some TokenType.tok_plusplus
    else if c == b'-' && n == b'-'
    then some TokenType.tok_minusminus
    else if c == b'+' && n == b'='
    then some TokenType.tok_plus_assign
    else if c == b'-' && n == b'='
    then some TokenType.tok_minus_assign
    else if c == b'*' && n == b'='
    then some TokenType.tok_star_assign
    else if c == b'/' && n == b'='
    then some TokenType.tok_slash_assign
    else if c == b'%' && n == b'='
    then some TokenType.tok_percent_assign
    else none

-- `switch (c)`.
unfoldable pub operator_one : ℕ → Option TokenType
operator_one c =
    if c == b'('
    then some TokenType.tok_lparen
    else if c == b')'
    then some TokenType.tok_rparen
    else if c == b'{'
    then some TokenType.tok_lbrace
    else if c == b'}'
    then some TokenType.tok_rbrace
    else if c == b'['
    then some TokenType.tok_lbracket
    else if c == b']'
    then some TokenType.tok_rbracket
    else if c == b','
    then some TokenType.tok_comma
    else if c == b';'
    then some TokenType.tok_semi
    else if c == b'.'
    then some TokenType.tok_dot
    else if c == b':'
    then some TokenType.tok_colon
    else if c == b'?'
    then some TokenType.tok_question
    else if c == b'@'
    then some TokenType.tok_at
    else if c == b'+'
    then some TokenType.tok_plus
    else if c == b'-'
    then some TokenType.tok_minus
    else if c == b'*'
    then some TokenType.tok_star
    else if c == b'/'
    then some TokenType.tok_slash
    else if c == b'%'
    then some TokenType.tok_percent
    else if c == b'='
    then some TokenType.tok_assign
    else if c == b'<'
    then some TokenType.tok_lt
    else if c == b'>'
    then some TokenType.tok_gt
    else if c == b'!'
    then some TokenType.tok_not
    else if c == b'&'
    then some TokenType.tok_amp
    else if c == b'|'
    then some TokenType.tok_bitor
    else if c == b'^'
    then some TokenType.tok_xor
    else if c == b'~'
    then some TokenType.tok_tilde
    else none

unfoldable pub lex_operator : Lexer → Token × Lexer
lex_operator l = elim (operator_two l.ch (lex_peek l)) [
  | some t ↦ (make_token t l 2, lex_advance (lex_advance l))
  | none ↦ elim (operator_one l.ch) [
    | some t ↦ (make_token t l 1, lex_advance l)
    | none ↦ (make_token TokenType.tok_eof l 1, lex_advance l)
  ]
]

-- `lex_next` behind `lex_skip_ws`.
unfoldable pub lex_token : Lexer → Token × Lexer
unfolding lex_word lex_number lex_string lex_char lex_operator is_alpha is_digit
lex_token l =
    if l.ch == 0
    then (make_token TokenType.tok_eof l 0, l)
    else if is_alpha l.ch
    then lex_word l
    else if is_digit l.ch
    then lex_number l
    else if l.ch == b'"'
    then lex_string l
    else if l.ch == b'\''
    then lex_char l
    else lex_operator l

unfoldable pub lex_next : Lexer → Token × Lexer
unfolding lex_token lex_skip_ws
lex_next l = lex_token (lex_skip_ws l)
