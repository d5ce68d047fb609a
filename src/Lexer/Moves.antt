-- ===== src/Lexer/Moves.antt =====
-- What it is for the lexer to move over a text: the relation that the proofs about the scanners
-- share, and its laws.
pub mod Advances
pub use Advances.{
  IsValid, line_after, col_after, Consumes, Consumes-refl, Consumes-trans, byte_at-end, lt-len,
  ch-zero, ch-head0, lex_advance-Consumes, lex_advance_end, lex_peek-head0, Consumes-cons,
  left-lex_advance,
}
use kinal.CString.{NoNul, head0}
use kinal.Lexer.State.{Lexer, byte_at, rest, lex_advance, lex_peek, left, advance_while}
use native.Mathlib.Numerals.{add-one}
use mathlib.Core.Path.{ap₂}
use kinal.Prelude.{
  ℕ, zero, suc, ◌+◌, ◌-◌, ◌≤◌, ◌<◌, Bool, true, false, [], ◌∷◌, ◌++◌, append_assoc, ◌≡◌, ◌≢◌, refl,
  sym, ap, ◌∙◌, subst, ◌⊎◌, inl, inr, arith, ltb, ◌==◌, if◌then◌else◌, Bool-cases, Bytes, length,
  drop, length-append, All,
}

abbrev IsTrue : (ℕ → Bool) → ℕ → Type 0
IsTrue test c = test c ≡ true

-- What a loop `while (test(l->ch)) lex_advance(l);` passes: only bytes of the test; and with a round
-- for each byte that is left it ends because the test fails.
pub record Passes (test : ℕ → Bool) (l m : Lexer) : Type 0 where
  pub word : Bytes
  pub moves : Consumes l word m
  pub all : All (λ c. test c ≡ true) word
  pub stops : test m.ch ≡ false

module _ (test : ℕ → Bool) (zero_fails : test 0 ≡ false) where
  ch_of_test : (l : Lexer) → test l.ch ≡ true → l.ch ≢ 0
  ch_of_test l t e = cc (ap test e)

  pub advance_while-Passes :
      (n : ℕ) (l : Lexer) → IsValid l → left l ≤ n → Passes test l (advance_while test n l)
  unfolding advance_while
  advance_while-Passes zero l v f = record {
    word = [];
    moves = Consumes-refl v;
    all = tt;
    stops = ap test (at_end l v f) ∙ zero_fails;
  }
    where
      at_end : (l : Lexer) → IsValid l → left l ≤ 0 → l.ch ≡ 0
      at_end l v f = v.ch_is ∙ byte_at-end l.src l.pos (omega (arith, v.len_is))
  advance_while-Passes (suc n) l v f = elim (Bool-cases (test l.ch)) [
    | inl t ↦
        let h = ch_of_test l t in
        let step = lex_advance-Consumes v h in
        let later = advance_while-Passes n (lex_advance l) step.valid (left-lex_advance v h f) in
        rw t (record {
          word = l.ch ∷ later.word;
          moves = Consumes-trans step later.moves;
          all = (t, later.all);
          stops = later.stops;
        })
    | inr t ↦ rw t (record { word = []; moves = Consumes-refl v; all = tt; stops = t })
  ]

pub left-Consumes :
    {l m : Lexer} {w : Bytes} → IsValid l → Consumes l w m → left m + length w ≡ left l
left-Consumes v p =
    omega (arith, p.pos_is, p.valid.len_is, p.valid.pos_le, v.len_is, ap length p.src_is)

drop-end : (s : Bytes) (n : ℕ) → length s ≤ n → drop n s ≡ []
drop-end [] zero h = refl
drop-end [] (suc n) h = refl
drop-end (c ∷ s) zero h = absurd (omega arith)
drop-end (c ∷ s) (suc n) h = drop-end s n (omega arith)

pub rest-end : {l : Lexer} → IsValid l → l.ch ≡ 0 → rest l ≡ []
rest-end {l} v e = drop-end l.src l.pos (omega (arith, ch-zero v e, v.len_is))

pub ch-end : {l : Lexer} → IsValid l → left l ≤ 0 → l.ch ≡ 0
ch-end {l} v f = v.ch_is ∙ byte_at-end l.src l.pos (omega (arith, v.len_is))

-- A text at the lexer's place is empty or begins with `ch`.
pub head0-text :
    {l : Lexer} (w t : Bytes) → IsValid l → rest l ≡ w ++ t → (w ≡ []) ⊎ (head0 w ≡ l.ch)
head0-text [] t v e = inl refl
head0-text (c ∷ w) t v e = inr (sym (ch-head0 v ∙ ap head0 e))

-- A known byte, and two.
pub one_Consumes :
    {l : Lexer} {c : ℕ} → IsValid l → l.ch ≡ c → c ≢ 0 → Consumes l (c ∷ []) (lex_advance l)
one_Consumes {l} v e h =
    let nz : l.ch ≢ 0 = λ z. h (sym e ∙ z) in
    Consumes-cons _ v nz e (Consumes-refl (lex_advance-Consumes v nz).valid)

pub two-Consumes :
    {l : Lexer} (c d : ℕ)
    → IsValid l
    → l.ch ≡ c
    → lex_peek l ≡ d
    → c ≢ 0
    → d ≢ 0
    → Consumes l (c ∷ d ∷ []) (lex_advance (lex_advance l))
two-Consumes {l} c d v p q hc hd =
    let h : l.ch ≢ 0 = λ e. hc (sym p ∙ e) in
    let e : (lex_advance l).ch ≡ d = sym (lex_peek-head0 v h) ∙ q in
    let h' : (lex_advance l).ch ≢ 0 = λ z. hd (sym e ∙ z) in
    let first = lex_advance-Consumes v h in
    Consumes-cons c v h p
      (Consumes-cons d first.valid h' e (Consumes-refl (lex_advance-Consumes first.valid h').valid))

byte_at-drop : (s : Bytes) (n i : ℕ) → byte_at (drop n s) i ≡ byte_at s (n + i)
byte_at-drop s zero i = ap (byte_at s) (omega arith)
byte_at-drop [] (suc n) i = refl
byte_at-drop (c ∷ s) (suc n) i =
    let e : suc (n + i) ≡ suc n + i = omega arith in byte_at-drop s n i ∙ ap (byte_at (c ∷ s)) e

byte_at-append : (w : Bytes) (c : ℕ) (t : Bytes) → byte_at (w ++ c ∷ t) (length w) ≡ c
byte_at-append [] c t = refl
byte_at-append (x ∷ w) c t = byte_at-append w c t

-- The byte before the lexer is the last byte that it passed.
pub last_byte :
    {l m : Lexer} (w : Bytes) (c : ℕ) → Consumes l (w ++ c ∷ []) m → byte_at m.src (m.pos - 1) ≡ c
last_byte {l} {m} w c p =
    let place : m.pos - 1 ≡ l.pos + length w = omega (arith, p.pos_is, length-append w (c ∷ [])) in
    let here : rest l ≡ w ++ c ∷ rest m = p.text ∙ append_assoc w (c ∷ []) (rest m) in
    ap₂ byte_at p.src_is place
    ∙ sym (byte_at-drop l.src l.pos (length w))
    ∙ ap (λ t. byte_at t (length w)) here
    ∙ byte_at-append w c (rest m)
