-- ===== src/Lexer.antt =====
-- The lexer of apps/kinal/src/kn_lexer.c.
pub mod Token
pub mod Keywords
pub mod State
pub mod Moves
pub mod Trivia
pub mod Scan
pub mod Tokens
mod Tests
