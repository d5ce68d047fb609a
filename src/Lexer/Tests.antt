-- ===== src/Lexer/Tests.antt =====
-- The lexer on small sources.
use kinal.CString.{kn_strlen, c_string, kn_strncmp, NoNul, c_string-NoNul}
use kinal.Lexer.Keywords.Exact.{Finds, kw_lookup-Finds}
use kinal.Lexer.Keywords.{g_keywords, kw_lookup}
use kinal.Lexer.Scan.Chars.{IsChar, lex_char-IsChar, lex_char_open_escape, ends_scan}
use kinal.Lexer.Scan.Next.{IsToken, lex_next-IsToken}
use kinal.Lexer.Scan.Strings.{IsString, lex_string-IsString}
use kinal.Lexer.Scan.Words.{IsWord, lex_word-IsWord}
use kinal.Lexer.Scan.{
  lex_next, lex_word, lex_string, lex_char, is_eol, is_word, has_closing_quote_before_eol,
  ends_bad_string, operator_two, operator_one,
}
use kinal.Lexer.State.{Lexer, lex_init, has_bom, lex_advance, lex_peek, is_hex_digit, is_alpha}
use kinal.Lexer.Token.{TokenType, Token}
use kinal.Lexer.Tokens.Layout.{Tokenised, bom, body, tokens_of-Tokenised, lex_init-IsValid}
use kinal.Lexer.Tokens.{tokens_of}
use kinal.Lexer.Trivia.Skip.{Skips, lex_skip_ws-Skips}
use kinal.Lexer.Trivia.{lex_skip_ws}
use kinal.Prelude.{
  ℕ, zero, suc, true, List, [], ◌∷◌, ◌++◌, some, codes, Bytes, length, ◌==◌, ◌≡◌, refl,
}

lex_some : ℕ → Lexer → List Token
unfolding lex_next
lex_some zero l = []
lex_some (suc n) l = let (t, l') = lex_next l in t ∷ lex_some n l'

abbrev token : TokenType → ℕ → ℕ → ℕ → ℕ → Token
token t s n l c = record { type = t; start = s; length = n; line = l; col = c }

abbrev comments : Bytes
comments = codes " /* a */\n// b\nx"

abbrev sample : Bytes
sample = codes "If /* a\n */x<=0x1Ff // c\n \"a\\\"b\" '\\n'"

sample_tokens :
    lex_some 6 (lex_init (some sample))
    ≡ token TokenType.tok_if 0 2 1 1
      ∷ token TokenType.tok_id 11 1 2 4
      ∷ token TokenType.tok_le 12 2 2 5
      ∷ token TokenType.tok_number 14 5 2 7
      ∷ token TokenType.tok_string 26 6 3 2
      ∷ token TokenType.tok_char_lit 33 4 3 9
      ∷ []
unfolding lex_some lex_init has_bom lex_advance lex_peek is_hex_digit is_word
    has_closing_quote_before_eol ends_bad_string operator_two operator_one kn_strlen c_string
    kw_lookup kn_strncmp
sample_tokens = refl

abbrev at_text : Bytes → Lexer
at_text s = lex_init (some s)

tokens_of-Tokenised_example : Tokenised (bom sample) 1 1 (body sample) (tokens_of (some sample))
tokens_of-Tokenised_example = tokens_of-Tokenised sample

lex_next-IsToken_example :
    Skips (at_text sample) (lex_skip_ws (at_text sample))
    × IsToken
        (lex_skip_ws (at_text sample))
        (lex_next (at_text sample)).0
        (lex_next (at_text sample)).1
lex_next-IsToken_example = lex_next-IsToken (at_text sample) (lex_init-IsValid sample)

lex_skip_ws-Skips_example : Skips (at_text comments) (lex_skip_ws (at_text comments))
lex_skip_ws-Skips_example = lex_skip_ws-Skips (at_text comments) (lex_init-IsValid comments)

while-NoNul : NoNul (codes "While")
unfolding c_string
while-NoNul = c_string-NoNul (codes "While")

kw_lookup-Finds_example :
    Finds
      (codes "While")
      g_keywords
      (kw_lookup (codes "While" ++ codes "(x)") (length (codes "While")))
kw_lookup-Finds_example = kw_lookup-Finds (codes "While") (codes "(x)") while-NoNul

abbrev quoted : Bytes
quoted = codes "\"a\\\"b\" + c"

quoted_starts : ((at_text quoted).ch == b'"') ≡ true
unfolding lex_init has_bom kn_strlen c_string
quoted_starts = refl

lex_string-IsString_example :
    IsString (at_text quoted) (lex_string (at_text quoted)).0 (lex_string (at_text quoted)).1
lex_string-IsString_example =
    lex_string-IsString (at_text quoted) (lex_init-IsValid quoted) quoted_starts

abbrev char_text : Bytes
char_text = codes "'\\n';"

char_starts : ((at_text char_text).ch == b'\'') ≡ true
unfolding lex_init has_bom kn_strlen c_string
char_starts = refl

lex_char-IsChar_example :
    IsChar (at_text char_text) (lex_char (at_text char_text)).0 (lex_char (at_text char_text)).1
lex_char-IsChar_example =
    lex_char-IsChar (at_text char_text) (lex_init-IsValid char_text) char_starts

abbrev open_text : Bytes
open_text = codes "'\\'\n"

open_starts :
    ((at_text open_text).ch ≡ b'\'')
    × ((lex_advance (at_text open_text)).ch ≡ b'\\')
    × ((lex_advance (lex_advance (at_text open_text))).ch ≡ b'\'')
    × (ends_scan (lex_advance (lex_advance (lex_advance (at_text open_text)))) ≡ true)
unfolding lex_init has_bom kn_strlen c_string lex_advance is_eol
open_starts = (refl, refl, refl, refl)

lex_char_open_escape_example : (lex_char (at_text open_text)).0.type ≡ TokenType.tok_char_lit
lex_char_open_escape_example =
    lex_char_open_escape (at_text open_text) (lex_init-IsValid open_text) open_starts.0
      open_starts.1 open_starts.2 open_starts.3

abbrev digits_text : Bytes
digits_text = codes "12.5f)"

sample_starts : is_alpha (at_text sample).ch ≡ true
unfolding lex_init has_bom kn_strlen c_string is_alpha
sample_starts = refl

lex_word-IsWord_example :
    IsWord (at_text sample) (lex_word (at_text sample)).0 (lex_word (at_text sample)).1
lex_word-IsWord_example = lex_word-IsWord (at_text sample) (lex_init-IsValid sample) sample_starts
