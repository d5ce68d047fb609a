-- ===== src/Lexer/Trivia.antt =====
-- `lex_skip_ws`: white space and comments.
pub mod Grammar
pub mod Skip
use kinal.Lexer.State.{Lexer, lex_advance, lex_peek, left, advance_while}
use kinal.Prelude.{ℕ, ◌+◌, zero, suc, Bool, not, ◌&&◌, ◌||◌, ◌==◌, if◌then◌else◌}

unfoldable pub is_space : ℕ → Bool
is_space c = c == b' ' || c == b'\t' || c == b'\r' || c == b'\n'

unfoldable pub in_line : ℕ → Bool
in_line c = not (c == 0) && not (c == b'\n')

unfoldable pub at_line_comment : Lexer → Bool
at_line_comment l = l.ch == b'/' && lex_peek l == b'/'

unfoldable pub at_block_comment : Lexer → Bool
at_block_comment l = l.ch == b'/' && lex_peek l == b'*'

unfoldable pub skip_line_comment : Lexer → Lexer
skip_line_comment l =
    let body = lex_advance (lex_advance l) in advance_while in_line (left body) body

-- The loop inside a block comment.
unfoldable pub skip_block : ℕ → Lexer → Lexer
skip_block zero l = l
skip_block (suc n) l =
    let more = skip_block n (lex_advance l) in
    if l.ch == 0
    then l
    else if l.ch == b'*' && lex_peek l == b'/'
    then lex_advance (lex_advance l)
    else more

unfoldable pub skip_block_comment : Lexer → Lexer
skip_block_comment l = let body = lex_advance (lex_advance l) in skip_block (left body) body

unfoldable pub skip_space : Lexer → Lexer
skip_space l = advance_while is_space (left l) l

unfoldable pub skip_ws_loop : ℕ → Lexer → Lexer
skip_ws_loop zero l = l
skip_ws_loop (suc n) l =
    let w = skip_space l in
    let after_line = skip_ws_loop n (skip_line_comment w) in
    let after_block = skip_ws_loop n (skip_block_comment w) in
    if at_line_comment w then after_line else if at_block_comment w then after_block else w

-- Each round but the last passes two bytes at least.
unfoldable pub lex_skip_ws : Lexer → Lexer
unfolding advance_while is_space in_line skip_space at_line_comment at_block_comment
    skip_line_comment skip_block skip_block_comment skip_ws_loop lex_advance lex_peek
lex_skip_ws l = skip_ws_loop (left l + 1) l
