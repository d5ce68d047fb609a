-- ===== src/Format/Buffer.antt =====
-- `KnFmtBuf`, the growing output buffer: `bytes` are `data[0]` to `data[len - 1]`. `kn_realloc` is
-- taken to succeed; the code ends the process where it does not.
use kinal.Prelude.{
  ℕ, zero, suc, ◌+◌, ◌*◌, ◌%◌, ◌^◌, Bool, true, false, ◌&&◌, ◌||◌, [], ◌∷◌, ◌++◌, ltb, leb, ◌==◌,
  if◌then◌else◌, Bytes, length,
}

pub record FmtBuf : Type 0 where
  pub bytes : Bytes
  pub cap : ℕ

-- `while (cap < need) cap = cap < 4096 ? cap * 2 : cap + 4096;`
unfoldable pub grow : ℕ → ℕ → ℕ → ℕ
grow zero need cap = cap
grow (suc n) need cap =
    let more = grow n need (if ltb cap 4096 then cap * 2 % 2 ^ 64 else (cap + 4096) % 2 ^ 64) in
    if ltb cap need then more else cap

-- While `cap` does not wrap each round makes it larger, so `need` rounds are enough.
unfoldable pub fmt_buf_reserve : FmtBuf → ℕ → FmtBuf
unfolding grow
fmt_buf_reserve b extra =
    let need = (length b.bytes + extra + 1) % 2 ^ 64 in
    let cap : ℕ = if b.cap == 0 then 256 else b.cap in
    if leb need b.cap then b else record b { cap = grow need need cap }

unfoldable pub fmt_buf_append_char : FmtBuf → ℕ → FmtBuf
unfolding fmt_buf_reserve
fmt_buf_append_char b c = let r = fmt_buf_reserve b 1 in record r { bytes = r.bytes ++ c ∷ [] }

unfoldable pub fmt_buf_append : FmtBuf → Bytes → FmtBuf
unfolding fmt_buf_reserve
fmt_buf_append b s =
    let r = fmt_buf_reserve b (length s) in
    if length s == 0 then b else record r { bytes = r.bytes ++ s }

unfoldable pub last_is : ℕ → Bytes → Bool
last_is c [] = false
last_is c (x ∷ []) = x == c
last_is c (x ∷ y ∷ s) = last_is c (y ∷ s)

unfoldable pub fmt_buf_last_is_space : FmtBuf → Bool
unfolding last_is
fmt_buf_last_is_space b = last_is b' ' b.bytes

unfoldable pub fmt_buf_last_is_newline : FmtBuf → Bool
unfolding last_is
fmt_buf_last_is_newline b = last_is b'\n' b.bytes

unfoldable pub is_blank : ℕ → Bool
is_blank c = c == b' ' || c == b'\t'

abbrev pub is_empty : Bytes → Bool
is_empty [] = true
is_empty (x ∷ s) = false

-- The bytes without the blanks at their end.
unfoldable pub trim : Bytes → Bytes
trim [] = []
trim (c ∷ s) = let t = trim s in if is_blank c && is_empty t then [] else c ∷ t

unfoldable pub fmt_trim_trailing_spaces : FmtBuf → FmtBuf
unfolding trim is_blank
fmt_trim_trailing_spaces b = record b { bytes = trim b.bytes }
