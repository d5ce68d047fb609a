-- ===== src/Lexer/Scan/Chars.antt =====
-- Character literals: what the loop and the two checks of `lex_char` accept.
pub mod Walks
pub use Walks.{ends_scan}
use kinal.Lexer.Scan.Chars.Walks.{
  unfinished, plain, escaped, Counts, Walk, next_plain, next_escaped, char_loop-Walk,
  char_loop-Counts, counted,
}
use kinal.Lexer.Moves.{
  IsValid, Consumes, Consumes-refl, Consumes-trans, lex_advance-Consumes, left-lex_advance,
  left-Consumes, one_Consumes, ch-end, last_byte,
}
use kinal.Lexer.Scan.{is_eol, is_char_escape, CharScan, char_loop, char_valid, lex_char}
use kinal.Lexer.Scan.Words.{Scanned, Scanned-token_from}
use kinal.Lexer.State.{Lexer, byte_at, lex_advance, left}
use kinal.Lexer.Token.{TokenType, Token}
use native.Mathlib.Nat.{le_refl}
use kinal.Prelude.{
  ℕ, zero, suc, ◌+◌, ◌-◌, ◌≤◌, Bool, true, false, ◌&&◌, ◌||◌, [], ◌∷◌, ◌++◌, ◌≡◌, ◌≢◌, refl, sym,
  ap, subst, ◌∙◌, ◌⊎◌, inl, inr, arith, ◌==◌, Bool-cases, Bytes,
}

-- The loop ends at once if its counter stays.
data Still (s r : CharScan) : Type 0 where
  stuck : r ≡ s → ends_scan s.at ≡ true → Still s r
  closed : r ≡ record s { at = lex_advance s.at } → s.at.ch ≡ b'\'' → Still s r

char_loop-Still :
    (n : ℕ) (s : CharScan)
    → IsValid s.at
    → left s.at ≤ n
    → (char_loop n s).value_count ≡ s.value_count
    → Still s (char_loop n s)
unfolding char_loop
char_loop-Still zero s v f c = stuck refl (ground (arith, ch-end v f))
char_loop-Still (suc n) s v f c = elim (Bool-cases (ends_scan s.at)) [
  | inl z ↦ rw z (stuck refl z)
  | inr nz ↦ elim (Bool-cases (s.at.ch == b'\'')) [
    | inl q ↦ rw (nz, q) (closed refl (ground arith))
    | inr nq ↦ absurd (counted n s v f nz nq c)
  ]
]

-- What `lex_char` accepts as a literal: one byte or one escape between quotes. The last form is an
-- escaped quote with no closing quote behind it.
pub data Accepted (m : Lexer) : Bytes → Type 0 where
  one_byte :
      {w : Bytes} (c : ℕ)
      → c ≢ b'\\'
      → c ≢ b'\''
      → is_eol c ≡ false
      → w ≡ b'\'' ∷ c ∷ b'\'' ∷ []
      → Accepted m w
  one_escape :
      {w : Bytes} (e : ℕ)
      → is_char_escape e ≡ true
      → w ≡ b'\'' ∷ b'\\' ∷ e ∷ b'\'' ∷ []
      → Accepted m w
  open_escape :
      {w : Bytes}
      → w ≡ b'\'' ∷ b'\\' ∷ b'\'' ∷ []
      → (m.ch ≡ 0) ⊎ (is_eol m.ch ≡ true)
      → Accepted m w

abbrev start_at : Lexer → CharScan
start_at body = record { at = body; value_count = 0; valid = true }

ends_scan-cases : (m : Lexer) → ends_scan m ≡ true → (m.ch ≡ 0) ⊎ (is_eol m.ch ≡ true)
ends_scan-cases m e = ground arith

-- The byte before the place where a scan ended.
abbrev last : CharScan → ℕ
last s = byte_at s.at.src (s.at.pos - 1)

abbrev AcceptedFrom : Lexer → CharScan → Type 0
AcceptedFrom l r = (w : Bytes) × Consumes l w r.at × Accepted r.at w

-- A loop that meets its end before a value has counted none.
ends_early :
    (body : Lexer) (n : ℕ)
    → (ends_scan body ≡ true) ⊎ ((ends_scan body ≡ false) × ((body.ch == b'\'') ≡ true))
    → (char_loop (suc n) (start_at body)).value_count ≡ 1
    → ⊥
unfolding char_loop
ends_early body n (inl z) c = omega (arith, rw z at c)
ends_early body n (inr (z, q)) c = omega (arith, rw (z, q) at c)

module _ (l body : Lexer) (open_quote : Consumes l (b'\'' ∷ []) body) where
  quote_at : (m : Lexer) → IsValid m → m.ch ≡ b'\'' → Consumes m (b'\'' ∷ []) (lex_advance m)
  quote_at m v e = one_Consumes v e (omega arith)

  after_plain :
      (n : ℕ) (r : CharScan)
      → left body ≤ suc n
      → ends_scan body ≡ false
      → (body.ch == b'\'') ≡ false
      → body.ch ≢ b'\\'
      → (p : Consumes body (body.ch ∷ []) (lex_advance body))
      → r ≡ char_loop n (next_plain (start_at body))
      → r.value_count ≡ 1
      → last r ≡ b'\''
      → AcceptedFrom l r
  after_plain n r f nz nq ns p e c b =
      elim (char_loop-Still n (next_plain (start_at body)) p.valid
        (omega (arith, left-Consumes open_quote.valid p)) (ap CharScan.value_count (sym e) ∙ c)) [
          | stuck s z ↦
              let x = sym (ap last (e ∙ s)) ∙ b in
              absurd (ground (arith, sym (last_byte [] body.ch p) ∙ x))
          | closed s q ↦
              let all = Consumes-trans open_quote (Consumes-trans p (quote_at _ p.valid q)) in
              subst (AcceptedFrom l) (sym (e ∙ s))
                (_, all, one_byte body.ch ns (ground arith) (ground arith) refl)
        ]

  after_escape :
      (n : ℕ) (r : CharScan) (d : ℕ)
      → left body ≤ suc n
      → (p : Consumes body (b'\\' ∷ d ∷ []) (next_escaped (start_at body)).at)
      → (lex_advance body).ch ≡ d
      → r ≡ char_loop n (next_escaped (start_at body))
      → r.value_count ≡ 1
      → r.valid ≡ true
      → last r ≡ b'\''
      → AcceptedFrom l r
  after_escape n r d f p at e c g b =
      elim (char_loop-Still n (next_escaped (start_at body)) p.valid
        (omega (arith, left-Consumes open_quote.valid p)) (ap CharScan.value_count (sym e) ∙ c)) [
          | stuck s z ↦
              let x = sym (last_byte (b'\\' ∷ []) d p) ∙ sym (ap last (e ∙ s)) ∙ b in
              subst (AcceptedFrom l) (sym (e ∙ s)) (
                _,
                Consumes-trans open_quote p,
                open_escape (ap (λ y. b'\'' ∷ b'\\' ∷ y ∷ []) x)
                    (ends_scan-cases (next_escaped (start_at body)).at z),
              )
          | closed s q ↦
              let all = Consumes-trans open_quote (Consumes-trans p (quote_at _ p.valid q)) in
              subst (AcceptedFrom l) (sym (e ∙ s)) (
                _,
                all,
                one_escape d (ap is_char_escape (sym at) ∙ sym (ap CharScan.valid (e ∙ s)) ∙ g)
                    refl,
              )
        ]

  loop-Accepted :
      (n : ℕ)
      → left body ≤ n
      → (char_loop n (start_at body)).value_count ≡ 1
      → (char_loop n (start_at body)).valid ≡ true
      → last (char_loop n (start_at body)) ≡ b'\''
      → AcceptedFrom l (char_loop n (start_at body))
  loop-Accepted zero f c g b = absurd (unfold char_loop in omega (arith, c))
  loop-Accepted (suc n) f c g b =
      let v = open_quote.valid in
      elim (Bool-cases (ends_scan body)) [
        | inl z ↦ absurd (ends_early body n (inl z) c)
        | inr nz ↦ elim (Bool-cases (body.ch == b'\'')) [
          | inl q ↦ absurd (ends_early body n (inr (nz, q)) c)
          | inr nq ↦ elim (char_loop-Counts n (start_at body) v nz nq) [
            | unfinished s p e ↦
                let x = sym (last_byte [] b'\\' p) ∙ sym (ap last e) ∙ b in
                absurd (omega (arith, x))
            | escaped d p at e ↦ after_escape n _ d f p at e c g b
            | plain ns p e ↦ after_plain n _ f nz nq ns p e c b
          ]
        ]
      ]

-- What `lex_char` makes at a quote.
pub data IsChar (l : Lexer) (t : Token) (m : Lexer) : Type 0 where
  good :
      {w : Bytes} → t.type ≡ TokenType.tok_char_lit → Scanned l w t m → Accepted m w → IsChar l t m
  bad : {w : Bytes} → t.type ≡ TokenType.tok_bad_char → Scanned l (b'\'' ∷ w) t m → IsChar l t m

char_valid_lem :
    (l : Lexer) (s : CharScan)
    → char_valid l s ≡ true
    → (s.value_count ≡ 1) × (s.valid ≡ true) × (last s ≡ b'\'')
unfolding char_valid
char_valid_lem l s h = ground arith

-- At a single quote, from a valid state, a `TOK_CHAR_LIT` of `lex_char` has a text that `Accepted`
-- describes, one character or one known escape between quotes or an escaped quote that nothing
-- closes; what else it makes is a `TOK_BAD_CHAR` that begins with the quote.
pub lex_char-IsChar :
    (l : Lexer) → IsValid l → (l.ch == b'\'') ≡ true → IsChar l (lex_char l).0 (lex_char l).1
unfolding lex_char
lex_char-IsChar l v q =
    let body = lex_advance l in
    let one = one_Consumes {c = b'\''} v (ground arith) (omega arith) in
    let s = char_loop (left body) (start_at body) in
    let walk = char_loop-Walk (left body) (start_at body) one.valid (le_refl _) in
    elim (Bool-cases (char_valid l s)) [
      | inl e ↦
          let (c, g, b) = char_valid_lem l s e in
          let (w, p, a) = loop-Accepted l body one (left body) (le_refl _) c g b in
          rw e (good refl (Scanned-token_from TokenType.tok_char_lit p) a)
      | inr e ↦
          rw e
            (bad refl (Scanned-token_from TokenType.tok_bad_char (Consumes-trans one walk.moves)))
    ]

char_loop_end : (n : ℕ) (s : CharScan) → ends_scan s.at ≡ true → char_loop n s ≡ s
unfolding char_loop
char_loop_end zero s e = refl
char_loop_end (suc n) s e = rw e

open_loop :
    (n : ℕ) (m : Lexer)
    → m.ch ≡ b'\\'
    → (lex_advance m).ch ≡ b'\''
    → ends_scan (lex_advance (lex_advance m)) ≡ true
    → char_loop (suc n) (start_at m)
      ≡ record { at = lex_advance (lex_advance m); value_count = 1; valid = true }
unfolding char_loop is_eol is_char_escape
open_loop n m a b d = let s = char_loop_end n (next_escaped (start_at m)) d in ground (arith, s)

-- The text `'\'` at the end of a line, or of the source, has no closing quote, and is made a
-- `TOK_CHAR_LIT` all the same.
pub lex_char_open_escape :
    (l : Lexer)
    → IsValid l
    → l.ch ≡ b'\''
    → (lex_advance l).ch ≡ b'\\'
    → (lex_advance (lex_advance l)).ch ≡ b'\''
    → ends_scan (lex_advance (lex_advance (lex_advance l))) ≡ true
    → (lex_char l).0.type ≡ TokenType.tok_char_lit
unfolding lex_char char_valid
lex_char_open_escape l v a b c d =
    let p = one_Consumes v a (omega arith) in
    let q = one_Consumes p.valid b (omega arith) in
    let r = one_Consumes q.valid c (omega arith) in
    let all = Consumes-trans p (Consumes-trans q r) in
    let k = left (lex_advance l) - 1 in
    let fuel : left (lex_advance l) ≡ suc k =
      omega (arith, left-Consumes p.valid q, left-Consumes q.valid r) in
    let e = ap (λ n. char_loop n (start_at (lex_advance l))) fuel ∙ open_loop k _ b c d in
    rw (e, char_valid) (ground (arith, all.pos_is, last_byte (b'\'' ∷ b'\\' ∷ []) b'\'' all))
