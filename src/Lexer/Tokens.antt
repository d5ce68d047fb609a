-- ===== src/Lexer/Tokens.antt =====
-- The loop that lexes a whole source, as `fmt_format_source` of apps/kinal/src/kn_format.c runs it:
-- `lex_next` up to the first `TOK_EOF`.
pub mod Layout
use kinal.Lexer.Scan.{lex_next}
use kinal.Lexer.State.{Lexer, left, lex_init}
use kinal.Lexer.Token.{TokenType, Token, ◌is◌}
use kinal.Prelude.{ℕ, zero, suc, ◌+◌, Bool, List, [], ◌∷◌, Option, if◌then◌else◌, Bytes}

unfoldable pub is_eof : Token → Bool
unfolding ◌is◌
is_eof t = t.type is TokenType.tok_eof

unfoldable pub lex_all : ℕ → Lexer → List Token
lex_all zero l = []
lex_all (suc n) l =
    let later = lex_all n (lex_next l).1 in
    if is_eof (lex_next l).0 then (lex_next l).0 ∷ [] else (lex_next l).0 ∷ later

-- Each token but the last passes a byte.
unfoldable pub tokens_of : Option Bytes → List Token
unfolding lex_all is_eof
tokens_of s = let l = lex_init s in lex_all (left l + 1) l
