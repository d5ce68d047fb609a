-- ===== src/Lexer/Scan/Words.antt =====
-- Words and numbers: what `lex_word` and `lex_number` pass.
pub mod Grammar
pub use Grammar.{IsNumber}
use kinal.Lexer.Scan.Words.Grammar.{
  IsSuffix, NoFraction, NoHex, scan_suffix_lem, NoFraction-scan, NoHex-scan, NoHex-parts,
}
use kinal.CString.{head0, tail0}
use kinal.Lexer.Keywords.{kw_lookup}
use kinal.Lexer.Moves.{
  IsValid, Consumes, Consumes-refl, Consumes-trans, one_Consumes, lex_advance-Consumes,
  two-Consumes, lex_peek-head0, ch-head0, Passes, advance_while-Passes,
}
use kinal.Lexer.Scan.{
  make_token, is_word, lex_word, scan_while, scan_fraction, scan_suffix, is_hex_start, scan_number,
  lex_number,
}
use kinal.Lexer.State.{Lexer, rest, lex_advance, lex_peek, left, is_alpha, is_digit, is_hex_digit}
use kinal.Lexer.Token.{TokenType, Token}
use native.Mathlib.Nat.{le_refl}
use kinal.Prelude.{
  append_assoc, subst, ℕ, ◌-◌, Bool, true, false, ◌&&◌, [], ◌∷◌, ◌++◌, ◌≡◌, ◌≢◌, refl, sym, ap, ◌∙◌,
  ◌⊎◌, inl, inr, arith, ◌==◌, Bool-cases, Bytes, length, All,
}

-- The token `t` made at `l` is a text `word` that the lexer has passed on its way to `m`.
pub record Scanned (l : Lexer) (word : Bytes) (t : Token) (m : Lexer) : Type 0 where
  pub moves : Consumes l word m
  pub start_is : t.start ≡ l.pos
  pub length_is : t.length ≡ length word
  pub line_is : t.line ≡ l.line
  pub col_is : t.col ≡ l.col

pub Scanned-token_from :
    {l m : Lexer} {w : Bytes} (t : TokenType)
    → Consumes l w m
    → Scanned l w (make_token t l (m.pos - l.pos)) m
Scanned-token_from t p = record {
  moves = p;
  start_is = refl;
  length_is = omega (arith, p.pos_is);
  line_is = refl;
  col_is = refl;
}

pub scan_while-Passes :
    (test : ℕ → Bool) (l : Lexer) → test 0 ≡ false → IsValid l → Passes test l (scan_while test l)
unfolding scan_while
scan_while-Passes test l z v = advance_while-Passes test z (left l) l v (le_refl _)

-- A loop that starts on a byte of its test passes that byte.
Passes-ne-nil :
    {test : ℕ → Bool} {l m : Lexer}
    → IsValid l
    → test l.ch ≡ true
    → (p : Passes test l m) → p.word ≢ []
Passes-ne-nil {test} {l} {m} v t p e =
    let same : l.ch ≡ m.ch =
      ch-head0 v ∙ ap head0 (p.moves.text ∙ ap (◌++ rest m) e) ∙ sym (ch-head0 p.moves.valid) in
    cc (ap test same)

is_word_zero : is_word 0 ≡ false
unfolding is_word
is_word_zero = refl

is_digit_zero : is_digit 0 ≡ false
unfolding is_digit
is_digit_zero = refl

is_hex_digit_zero : is_hex_digit 0 ≡ false
unfolding is_hex_digit
is_hex_digit_zero = refl

-- A word: letters and digits to the last one, with its type from the keyword table.
pub record IsWord (l : Lexer) (t : Token) (m : Lexer) : Type 0 where
  pub word : Bytes
  pub scanned : Scanned l word t m
  pub all : All (λ c. is_word c ≡ true) word
  pub ne_nil : word ≢ []
  pub longest : is_word m.ch ≡ false
  pub type_is : t.type ≡ kw_lookup (rest l) (length word)

-- At a letter, from a valid state, `lex_word` takes the longest run of letters and digits, with the
-- type that the keyword table has for it.
pub lex_word-IsWord :
    (l : Lexer) → IsValid l → is_alpha l.ch ≡ true → IsWord l (lex_word l).0 (lex_word l).1
unfolding lex_word is_word
lex_word-IsWord l v a =
    let p = advance_while-Passes is_word is_word_zero (left l) l v (le_refl _) in
    record {
      word = p.word;
      scanned = Scanned-token_from _ p.moves;
      all = p.all;
      ne_nil = Passes-ne-nil v (rw a) p;
      longest = p.stops;
      type_is = ap (kw_lookup (rest l)) (omega (arith, p.moves.pos_is));
    }

-- A loop stops in front of what follows.
stops-head0 :
    {test : ℕ → Bool} {l k : Lexer} {x : Bytes}
    → Passes test l k
    → rest k ≡ x
    → test (head0 x) ≡ false
stops-head0 {test} p e = ap test (sym (ch-head0 p.moves.valid ∙ ap head0 e)) ∙ p.stops

-- What a text is before its suffix, which may be none.
record IsPrefix (l : Lexer) (w : Bytes) (k : Lexer) : Type 0 where
  moves : Consumes l w k
  ends : (s r : Bytes) → rest k ≡ s ++ r → IsSuffix s r → IsNumber (w ++ s) r

-- The digits and what `scan_fraction` passes behind them.
scan_decimal :
    (l k : Lexer)
    → IsValid l
    → Passes is_digit l k
    → is_digit l.ch ≡ true
    → NoHex (rest l)
    → (w : Bytes) × IsPrefix l w (scan_fraction k)
unfolding scan_fraction
scan_decimal l k v p d no_hex = elim (Bool-cases (k.ch == b'.' && is_digit (lex_peek k))) [
  | inl f ↦
      let dot = one_Consumes {c = b'.'} p.moves.valid (ground arith) (omega arith) in
      let h : k.ch ≢ 0 = ground arith in
      let next : is_digit (lex_advance k).ch ≡ true =
        sym (ap is_digit (lex_peek-head0 p.moves.valid h)) ∙ ground arith in
      let q = scan_while-Passes is_digit (lex_advance k) is_digit_zero dot.valid in
      let all = Consumes-trans p.moves (Consumes-trans dot q.moves) in
      rw f (
        p.word ++ b'.' ∷ q.word,
        record {
          moves = all;
          ends = λ s r e x.
              IsNumber.fraction p.word q.word s (Passes-ne-nil v d p) p.all
                (Passes-ne-nil dot.valid next q) q.all (stops-head0 q e)
                (NoHex-parts l (p.word ++ b'.' ∷ q.word) s r no_hex
                  (all.text ∙ ap ((p.word ++ b'.' ∷ q.word) ++◌) e))
                x refl;
        },
      )
  | inr n ↦ rw n (
    p.word,
    record {
      moves = p.moves;
      ends = λ s r e x.
          IsNumber.whole p.word s (Passes-ne-nil v d p) p.all (stops-head0 p e)
            (subst NoFraction e (NoFraction-scan k p.moves.valid n))
            (NoHex-parts l p.word s r no_hex (p.moves.text ∙ ap (p.word ++◌) e)) x refl;
    },
  )
]

scan_hex :
    (l : Lexer)
    → IsValid l
    → is_hex_start l ≡ true
    → (w : Bytes) × IsPrefix l w (scan_while is_hex_digit (lex_advance (lex_advance l)))
unfolding is_hex_start
scan_hex l v h =
    let x = lex_peek l in
    let start = two-Consumes b'0' x v (ground arith) refl (omega arith) (ground arith) in
    let q = scan_while-Passes is_hex_digit _ is_hex_digit_zero start.valid in
    (
      b'0' ∷ x ∷ q.word,
      record {
        moves = Consumes-trans start q.moves;
        ends = λ s r e y. IsNumber.hex x q.word s (ground arith) q.all (stops-head0 q e) y refl;
      },
    )

-- A suffix behind a prefix makes a number.
with_suffix :
    {l k : Lexer} {w : Bytes}
    → IsPrefix l w k
    → (u : Bytes) × Consumes l u (scan_suffix k) × IsNumber u (rest (scan_suffix k))
with_suffix {l} {k} {w} p =
    let (s, q, x) = scan_suffix_lem k p.moves.valid in
    (w ++ s, Consumes-trans p.moves q, p.ends s (rest (scan_suffix k)) q.text x)

scan_number_lem :
    (l : Lexer)
    → IsValid l
    → is_digit l.ch ≡ true
    → (w : Bytes) × Consumes l w (scan_number l) × IsNumber w (rest (scan_number l))
unfolding scan_number
scan_number_lem l v d = elim (Bool-cases (is_hex_start l)) [
  | inl h ↦ let (w, p) = scan_hex l v h in rw h (with_suffix p)
  | inr h ↦
      let digits = scan_while-Passes is_digit l is_digit_zero v in
      let (w, p) = scan_decimal l _ v digits d (NoHex-scan l v h) in rw h (with_suffix p)
]

pub lex_number-IsNumber :
    (l : Lexer)
    → IsValid l
    → is_digit l.ch ≡ true
    → (w : Bytes) × Scanned l w (lex_number l).0 (lex_number l).1
      × IsNumber w (rest (lex_number l).1)
unfolding lex_number
lex_number-IsNumber l v d =
    let (w, p, n) = scan_number_lem l v d in (w, Scanned-token_from TokenType.tok_number p, n)
