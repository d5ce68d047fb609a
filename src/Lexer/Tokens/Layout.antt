-- ===== src/Lexer/Tokens/Layout.antt =====
-- The tokens of a source and the trivia between them are the source.
use kinal.CString.{c_string, c_string-NoNul, kn_strlen, strlen_loop-c_string}
use kinal.Lexer.Moves.{IsValid, Consumes-trans, left-Consumes, line_after, col_after, byte_at-end}
use kinal.Lexer.Scan.{lex_next}
use kinal.Lexer.Scan.Chars.{IsChar, Accepted}
use kinal.Lexer.Scan.Next.{IsToken, lex_next-IsToken, kw_lookup-ne-eof}
use kinal.Lexer.Scan.Operators.{spelling, NoToken}
use kinal.Lexer.Scan.Strings.{IsString}
use kinal.Lexer.Scan.Words.{Scanned, IsNumber}
use kinal.Lexer.State.{Lexer, byte_at, rest, left, has_bom, lex_init}
use kinal.Lexer.Token.{TokenType, Token, ◌is◌}
use kinal.Lexer.Tokens.{is_eof, lex_all, tokens_of}
use kinal.Lexer.Trivia.Grammar.{IsTrivia}
use kinal.Prelude.{
  ℕ, zero, suc, ◌+◌, ◌≤◌, ◌<◌, true, false, List, [], ◌∷◌, ◌++◌, some, ◌≡◌, ◌≢◌, refl, sym, ap,
  subst, ◌∙◌, ◌⊎◌, inl, inr, arith, ltb, if◌then◌else◌, Bytes, length, drop, length-append,
}

-- A token behind `gap`, where the gap begins at a place in the source.
pub record Located (pos line col : ℕ) (gap w : Bytes) (t : Token) : Type 0 where
  pub start_is : t.start ≡ pos + length gap
  pub length_is : t.length ≡ length w
  pub line_is : t.line ≡ line_after line gap
  pub col_is : t.col ≡ col_after col gap

-- Why the last token is one: the source ends, or a byte begins no token.
abbrev pub Stops : Bytes → Bytes → Type 0
Stops w r = ((w ≡ []) × (r ≡ [])) ⊎ ((c : ℕ) × (w ≡ c ∷ []) × NoToken c)

-- The text `x`, which begins at a place in the source, is trivia and token texts in turn, with these
-- tokens, of which only the last is a `TOK_EOF`.
pub data Tokenised : ℕ → ℕ → ℕ → Bytes → List Token → Type 0 where
  last :
      {p ln co : ℕ} {x : Bytes} {t : Token} (gap w r : Bytes)
      → is_eof t ≡ true
      → Located p ln co gap w t
      → IsTrivia (w ++ r) gap
      → x ≡ gap ++ (w ++ r)
      → Stops w r
      → Tokenised p ln co x (t ∷ [])
  more :
      {p ln co q ln' co' : ℕ} {x y : Bytes} {t : Token} {ts : List Token} (gap w : Bytes)
      → is_eof t ≡ false
      → Located p ln co gap w t
      → IsTrivia (w ++ y) gap
      → x ≡ gap ++ (w ++ y)
      → w ≢ []
      → q ≡ p + length gap + length w
      → ln' ≡ line_after ln (gap ++ w)
      → co' ≡ col_after co (gap ++ w)
      → Tokenised q ln' co' y ts
      → Tokenised p ln co x (t ∷ ts)

-- What the loop needs of a token.
abbrev Outcome : Lexer → Token → Lexer → Bytes → Type 0
Outcome l t m w = ((is_eof t ≡ true) × Stops w (rest m)) ⊎ ((is_eof t ≡ false) × (w ≢ []))

abbrev Piece : Lexer → Token → Lexer → Type 0
Piece l t m = (w : Bytes) × Scanned l w t m × Outcome l t m w

IsNumber-ne-nil : {w r : Bytes} → IsNumber w r → w ≢ []
IsNumber-ne-nil (IsNumber.hex x d s _ _ _ _ e) z = cc
IsNumber-ne-nil (IsNumber.whole [] s h _ _ _ _ _ e) z = absurd (h refl)
IsNumber-ne-nil (IsNumber.whole (c ∷ d) s h _ _ _ _ _ e) z = cc
IsNumber-ne-nil (IsNumber.fraction [] f s h _ _ _ _ _ _ e) z = absurd (h refl)
IsNumber-ne-nil (IsNumber.fraction (c ∷ d) f s h _ _ _ _ _ _ e) z = cc

Accepted-ne-nil : {m : Lexer} {w : Bytes} → Accepted m w → w ≢ []
Accepted-ne-nil (Accepted.one_byte c _ _ _ e) z = cc
Accepted-ne-nil (Accepted.one_escape d _ e) z = cc
Accepted-ne-nil (Accepted.open_escape e _) z = cc

typed : (t : Token) (u : TokenType) → t.type ≡ u → is_eof t ≡ (u is TokenType.tok_eof)
unfolding is_eof
typed t u e = ap (λ x. x is TokenType.tok_eof) e

spelling-ne-eof : (t : TokenType) → spelling t ≢ [] → (t is TokenType.tok_eof) ≡ false
unfolding ◌is◌
spelling-ne-eof TokenType.tok_eof h = absurd (h refl)
spelling-ne-eof _ h = refl

IsToken-Piece : {l : Lexer} {t : Token} {m : Lexer} → IsToken l t m → Piece l t m
unfolding ◌is◌
IsToken-Piece (IsToken.at_end e s r) = ([], s, inl (typed _ _ e, inl (refl, r)))
IsToken-Piece {l} {t} (IsToken.word x) =
    (x.word, x.scanned, inr (typed t _ x.type_is ∙ kw_lookup-ne-eof _ _, x.ne_nil))
IsToken-Piece (IsToken.number e s n) = (_, s, inr (typed _ _ e, IsNumber-ne-nil n))
IsToken-Piece (IsToken.string (IsString.good e s _)) = (_, s, inr (typed _ _ e, cc))
IsToken-Piece (IsToken.string (IsString.bad e s _ _)) = (_, s, inr (typed _ _ e, cc))
IsToken-Piece (IsToken.character (IsChar.good e s a)) = (_, s, inr (typed _ _ e, Accepted-ne-nil a))
IsToken-Piece (IsToken.character (IsChar.bad e s)) = (_, s, inr (typed _ _ e, cc))
IsToken-Piece {l} {t} (IsToken.operator s e h _) =
    (_, s, inr (unfold is_eof in spelling-ne-eof t.type (λ z. h (sym e ∙ z)), h))
IsToken-Piece (IsToken.unknown c e s o) = (_, s, inl (typed _ _ e, inr (c, refl, o)))

length-pos : (w : Bytes) → w ≢ [] → 0 < length w
length-pos [] h = absurd (h refl)
length-pos (c ∷ w) h = omega arith

-- A round for each byte that is left, and one more, are enough: the last token is a `TOK_EOF`.
lex_all-Tokenised :
    (n : ℕ) (l : Lexer)
    → IsValid l
    → left l < n
    → Tokenised l.pos l.line l.col (rest l) (lex_all n l)
unfolding lex_all
lex_all-Tokenised zero l v f = absurd (omega arith)
lex_all-Tokenised (suc n) l v f =
    let t = (lex_next l).0 in
    let m = (lex_next l).1 in
    let (skips, token) = lex_next-IsToken l v in
    let (w, s, outcome) = IsToken-Piece token in
    let g = skips.gap in
    let trivia = subst (λ x. IsTrivia x g) s.moves.text skips.trivia in
    let text : rest l ≡ g ++ (w ++ rest m) = skips.moves.text ∙ ap (g ++◌) s.moves.text in
    let place : Located l.pos l.line l.col g w t = record {
      start_is = s.start_is ∙ skips.moves.pos_is;
      length_is = s.length_is;
      line_is = s.line_is ∙ skips.moves.line_is;
      col_is = s.col_is ∙ skips.moves.col_is;
    } in
    let all = Consumes-trans skips.moves s.moves in
    elim outcome [
      | inl (e, stops) ↦ rw e (last g w (rest m) e place trivia text stops)
      | inr (e, ne) ↦ rw e (
          more g w e place trivia text ne (omega (arith, s.moves.pos_is, skips.moves.pos_is))
            all.line_is all.col_is
            (lex_all-Tokenised n m s.moves.valid
              (omega (arith, left-Consumes v all, length-append g w, length-pos w ne))))
    ]

-- The state before the first token: the byte order mark is passed, on line 1 and column 1.
byte_at-c_string :
    (s : Bytes) (n : ℕ) → n < length (c_string s) → byte_at s n ≡ byte_at (c_string s) n
unfolding c_string
byte_at-c_string [] n h = refl
byte_at-c_string (c ∷ s) zero h = ground arith
byte_at-c_string (c ∷ s) (suc n) h = ground (arith, byte_at-c_string s n)

unfoldable pub bom : Bytes → ℕ
bom s = if has_bom s (length (c_string s)) then 3 else 0

bom-le : (s : Bytes) → bom s ≤ length (c_string s)
unfolding bom has_bom
bom-le s = ground arith

abbrev start_at : Bytes → ℕ → Lexer
start_at s p = record {
  src = c_string s;
  len = length (c_string s);
  pos = p;
  line = 1;
  col = 1;
  ch = if ltb p (length (c_string s)) then byte_at s p else 0;
}

start_at-IsValid : (s : Bytes) (p : ℕ) → p ≤ length (c_string s) → IsValid (start_at s p)
start_at-IsValid s p h = record {
  len_is = refl;
  pos_le = h;
  ch_is = ground (arith, byte_at-c_string s p, byte_at-end (c_string s) p);
  no_nul = c_string-NoNul s;
}

lex_init-start_at : (s : Bytes) → lex_init (some s) ≡ start_at s (bom s)
unfolding lex_init bom kn_strlen
lex_init-start_at s = rw (strlen_loop-c_string s)

pub lex_init-IsValid : (s : Bytes) → IsValid (lex_init (some s))
lex_init-IsValid s =
    subst IsValid (sym (lex_init-start_at s)) (start_at-IsValid s (bom s) (bom-le s))

-- The text that a source has behind its byte order mark, if it has one.
abbrev pub body : Bytes → Bytes
body s = drop (bom s) (c_string s)

-- The tokens of a source, up to and with the first `TOK_EOF`, and the trivia between them spell the
-- whole source behind the byte order mark, or all of it up to a byte that begins no token. Each
-- token's `start`, `length`, `line` and `col` are those of its text, lines and columns counted from 1.
pub tokens_of-Tokenised : (s : Bytes) → Tokenised (bom s) 1 1 (body s) (tokens_of (some s))
unfolding tokens_of
tokens_of-Tokenised s =
    rw (lex_init-start_at s) (
      lex_all-Tokenised _ (start_at s (bom s)) (start_at-IsValid s (bom s) (bom-le s))
        (omega arith))
