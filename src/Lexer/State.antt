-- ===== src/Lexer/State.antt =====
-- The `Lexer` struct and its smallest operations, and the byte classes. `src` holds the bytes before
-- the terminator; a read beyond them is 0. Bytes are 0 to 255: on the values that the code compares
-- signed and unsigned `char` agree.
use kinal.CString.{c_string, kn_strlen}
use kinal.Prelude.{
  ℕ, ◌+◌, ◌-◌, zero, suc, Bool, ◌&&◌, ◌||◌, [], Option, none, some, ltb, leb, ◌==◌, if◌then◌else◌,
  Bytes, get_or, drop,
}

pub record Lexer : Type 0 where
  pub src : Bytes
  pub len : ℕ
  pub pos : ℕ
  pub line : ℕ
  pub col : ℕ
  pub ch : ℕ

abbrev pub byte_at : Bytes → ℕ → ℕ
byte_at s i = get_or s i 0

-- The text that is not read yet.
abbrev pub rest : Lexer → Bytes
rest l = drop l.pos l.src

abbrev src_or_empty : Option Bytes → Bytes
src_or_empty none = []
src_or_empty (some s) = s

unfoldable pub has_bom : Bytes → ℕ → Bool
has_bom s len = leb 3 len && byte_at s 0 == 0xEF && byte_at s 1 == 0xBB && byte_at s 2 == 0xBF

unfoldable pub lex_init : Option Bytes → Lexer
lex_init memory =
    let s = src_or_empty memory in
    let n = kn_strlen (some s) in
    let p : ℕ = if has_bom s n then 3 else 0 in
    record {
      src = c_string s;
      len = n;
      pos = p;
      line = 1;
      col = 1;
      ch = if ltb p n then byte_at s p else 0;
    }

unfoldable pub lex_advance : Lexer → Lexer
lex_advance l =
    let p = l.pos + 1 in
    if l.ch == 0 then l else record l {
      line = if l.ch == b'\n' then l.line + 1 else l.line;
      col = if l.ch == b'\n' then 1 else l.col + 1;
      pos = p;
      ch = if ltb p l.len then byte_at l.src p else 0;
    }

unfoldable pub lex_peek : Lexer → ℕ
lex_peek l = if ltb (l.pos + 1) l.len then byte_at l.src (l.pos + 1) else 0

-- The rounds that a loop of `lex_advance` can make.
abbrev pub left : Lexer → ℕ
left l = l.len - l.pos

unfoldable pub is_alpha : ℕ → Bool
is_alpha uc =
    (leb b'a' uc && leb uc b'z') || (leb b'A' uc && leb uc b'Z') || uc == b'_' || leb 0x80 uc

unfoldable pub is_digit : ℕ → Bool
is_digit c = leb b'0' c && leb c b'9'

unfoldable pub is_hex_digit : ℕ → Bool
unfolding is_digit
is_hex_digit c = is_digit c || (leb b'a' c && leb c b'f') || (leb b'A' c && leb c b'F')

-- `while (test(l->ch)) lex_advance(l);`
unfoldable pub advance_while : (ℕ → Bool) → ℕ → Lexer → Lexer
advance_while test zero l = l
advance_while test (suc n) l =
    let more = advance_while test n (lex_advance l) in if test l.ch then more else l
