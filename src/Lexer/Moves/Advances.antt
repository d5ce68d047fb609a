-- ===== src/Lexer/Moves/Advances.antt =====
-- Moves of the lexer over a text: the state keeps its invariant, and the position, line and column
-- are those behind the text (apps/kinal/src/kn_lexer.c, lex_advance).
use kinal.CString.{NoNul, head0}
use kinal.Lexer.State.{Lexer, byte_at, rest, lex_advance, lex_peek, left}
use native.Mathlib.Numerals.{add-one}
use kinal.Prelude.{
  ℕ, zero, suc, ◌+◌, ◌≤◌, ◌<◌, false, [], ◌∷◌, ◌++◌, append_assoc, ◌≡◌, ◌≢◌, refl, sym, ap, ◌∙◌,
  subst, inl, inr, arith, ltb, ◌==◌, if◌then◌else◌, Bool-cases, Bytes, length, drop, length-append,
}

-- The lexer stands in its text, and `ch` is the byte there, or 0 at the end.
pub record IsValid (l : Lexer) : Type 0 where
  pub len_is : l.len ≡ length l.src
  pub pos_le : l.pos ≤ l.len
  pub ch_is : l.ch ≡ byte_at l.src l.pos
  pub no_nul : NoNul l.src

-- The line that follows when a text is passed that begins on line `n`, and the column.
abbrev pub line_after : ℕ → Bytes → ℕ
line_after n [] = n
line_after n (c ∷ cs) = line_after (if c == b'\n' then n + 1 else n) cs

abbrev pub col_after : ℕ → Bytes → ℕ
col_after n [] = n
col_after n (c ∷ cs) = col_after (if c == b'\n' then 1 else n + 1) cs

line_after-append : (n : ℕ) (v w : Bytes) → line_after n (v ++ w) ≡ line_after (line_after n v) w
line_after-append n [] w = refl
line_after-append n (c ∷ v) w = line_after-append (if c == b'\n' then n + 1 else n) v w

col_after-append : (n : ℕ) (v w : Bytes) → col_after n (v ++ w) ≡ col_after (col_after n v) w
col_after-append n [] w = refl
col_after-append n (c ∷ v) w = col_after-append (if c == b'\n' then 1 else n + 1) v w

-- From `l` the lexer has passed exactly the text `w`, and is at `m`.
pub record Consumes (l : Lexer) (w : Bytes) (m : Lexer) : Type 0 where
  pub valid : IsValid m
  pub src_is : m.src ≡ l.src
  pub text : rest l ≡ w ++ rest m
  pub pos_is : m.pos ≡ l.pos + length w
  pub line_is : m.line ≡ line_after l.line w
  pub col_is : m.col ≡ col_after l.col w

pub Consumes-refl : {l : Lexer} → IsValid l → Consumes l [] l
Consumes-refl v = record {
  valid = v;
  src_is = refl;
  text = refl;
  pos_is = omega arith;
  line_is = refl;
  col_is = refl;
}

pub Consumes-trans :
    {l m k : Lexer} {v w : Bytes} → Consumes l v m → Consumes m w k → Consumes l (v ++ w) k
Consumes-trans {l} {v = v} {w} p q = record {
  valid = q.valid;
  src_is = q.src_is ∙ p.src_is;
  text = p.text ∙ ap (v ++◌) q.text ∙ sym (append_assoc v w _);
  pos_is = omega (arith, p.pos_is, q.pos_is, length-append v w);
  line_is = q.line_is ∙ ap (λ n. line_after n w) p.line_is ∙ sym (line_after-append l.line v w);
  col_is = q.col_is ∙ ap (λ n. col_after n w) p.col_is ∙ sym (col_after-append l.col v w);
}

drop-cons : (s : Bytes) (n : ℕ) → n < length s → drop n s ≡ byte_at s n ∷ drop (suc n) s
drop-cons [] n h = absurd (omega arith)
drop-cons (c ∷ s) zero h = refl
drop-cons (c ∷ s) (suc n) h = drop-cons s n (omega arith)

byte_at-pos : (s : Bytes) (n : ℕ) → NoNul s → n < length s → 0 < byte_at s n
byte_at-pos [] n z h = absurd (omega arith)
byte_at-pos (c ∷ s) zero z h = z.0
byte_at-pos (c ∷ s) (suc n) z h = byte_at-pos s n z.1 (omega arith)

pub byte_at-end : (s : Bytes) (n : ℕ) → length s ≤ n → byte_at s n ≡ 0
byte_at-end [] n h = refl
byte_at-end (c ∷ s) zero h = absurd (omega arith)
byte_at-end (c ∷ s) (suc n) h = byte_at-end s n (omega arith)

pub lt-len : {l : Lexer} → IsValid l → l.ch ≢ 0 → l.pos < l.len
lt-len {l} v h = elim (Bool-cases (ltb l.pos l.len)) [
  | inl e ↦ ground arith
  | inr e ↦ absurd (h (v.ch_is ∙ byte_at-end l.src l.pos (ground (arith, v.len_is))))
]

is-false : (c : ℕ) → c ≢ 0 → (c == 0) ≡ false
is-false c h = ground arith

pub ch-zero : {l : Lexer} → IsValid l → l.ch ≡ 0 → l.pos ≡ l.len
ch-zero {l} v h = elim (Bool-cases (ltb l.pos l.len)) [
  | inl e ↦ absurd (ground (arith, v.len_is, v.ch_is, byte_at-pos l.src l.pos v.no_nul))
  | inr e ↦ ground (arith, v.pos_le)
]

head0-drop : (s : Bytes) (n : ℕ) → head0 (drop n s) ≡ byte_at s n
head0-drop [] zero = refl
head0-drop [] (suc n) = refl
head0-drop (c ∷ s) zero = refl
head0-drop (c ∷ s) (suc n) = head0-drop s n

pub ch-head0 : {l : Lexer} → IsValid l → l.ch ≡ head0 (rest l)
ch-head0 {l} v = v.ch_is ∙ sym (head0-drop l.src l.pos)

-- Each call of `lex_advance` before the end passes the byte `ch`.
pub lex_advance-Consumes :
    {l : Lexer} → IsValid l → l.ch ≢ 0 → Consumes l (l.ch ∷ []) (lex_advance l)
unfolding lex_advance
lex_advance-Consumes {l} v h =
    let inside = lt-len v h in
    rw (is-false l.ch h, lex_advance)
      (record {
        valid = record {
          len_is = v.len_is;
          pos_le = omega arith;
          ch_is = ground (arith, v.len_is, byte_at-end l.src (l.pos + 1));
          no_nul = v.no_nul;
        };
        src_is = refl;
        text = rw (add-one l.pos, v.ch_is) (drop-cons l.src l.pos (omega (arith, v.len_is)));
        pos_is = omega arith;
        line_is = refl;
        col_is = refl;
      })

-- At the end `lex_advance` does nothing.
pub lex_advance_end : (l : Lexer) → l.ch ≡ 0 → lex_advance l ≡ l
unfolding lex_advance
lex_advance_end l h = rw (h, lex_advance)

-- One byte of look-ahead is the byte behind `ch`.
pub lex_peek-head0 : {l : Lexer} → IsValid l → l.ch ≢ 0 → lex_peek l ≡ (lex_advance l).ch
unfolding lex_peek lex_advance
lex_peek-head0 {l} v h = ground arith

-- A step before a known move.
pub Consumes-cons :
    {l m : Lexer} {w : Bytes} (c : ℕ)
    → IsValid l
    → l.ch ≢ 0
    → l.ch ≡ c
    → Consumes (lex_advance l) w m
    → Consumes l (c ∷ w) m
Consumes-cons {l} {m} {w} c v h e p =
    subst (λ b. Consumes l (b ∷ w) m) e (Consumes-trans (lex_advance-Consumes v h) p)

-- The fuel that a loop has left after a step is enough for what is left to read.
pub left-lex_advance :
    {l : Lexer} {n : ℕ} → IsValid l → l.ch ≢ 0 → left l ≤ suc n → left (lex_advance l) ≤ n
left-lex_advance {l} v h f =
    let step = lex_advance-Consumes v h in
    omega (arith, lt-len v h, step.pos_is, step.valid.len_is, v.len_is, ap length step.src_is)
