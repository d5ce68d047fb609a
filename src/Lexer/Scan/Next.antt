-- ===== src/Lexer/Scan/Next.antt =====
-- Operators, and what one call of `lex_next` makes.
use kinal.Lexer.Keywords.{Kw, g_keywords, kw_search, kw_lookup, is_match}
use kinal.Lexer.Moves.{
  IsValid, Consumes, Consumes-refl, two-Consumes, lex_advance-Consumes, rest-end, lex_peek-head0,
}
use kinal.Lexer.Scan.{
  make_token, operator_two, operator_one, lex_number, lex_operator, lex_token, lex_next,
}
use kinal.Lexer.Scan.Chars.{IsChar, lex_char-IsChar}
use kinal.Lexer.Scan.Operators.{
  spelling, NoToken, operator_two-spelling, operator_two-ne-zero, operator_one-spelling,
  first_of_spelling, two_of_spelling,
}
use kinal.Lexer.Scan.Strings.{IsString, lex_string-IsString}
use kinal.Lexer.Scan.Words.{Scanned, IsWord, lex_word-IsWord, IsNumber, lex_number-IsNumber}
use kinal.Lexer.State.{Lexer, rest, lex_advance, lex_peek, is_alpha, is_digit}
use kinal.Lexer.Token.{TokenType, Token, ◌is◌}
use kinal.Lexer.Trivia.Skip.{Skips, lex_skip_ws-Skips}
use kinal.Lexer.Trivia.{lex_skip_ws}
use kinal.Prelude.{
  ℕ, Bool, true, false, not, ◌&&◌, List, [], ◌∷◌, none, ◌≡◌, ◌≢◌, refl, ◌∙◌, inl, inr, arith, ◌==◌,
  Bool-cases, Option-cases, Bytes,
}

-- No keyword has the type of the end of the source.
ends_none : List Kw → Bool
ends_none [] = true
ends_none (k ∷ ks) = not (k.type is TokenType.tok_eof) && ends_none ks

kw_search-ne-eof :
    (ks : List Kw) (s : Bytes) (n : ℕ)
    → ends_none ks ≡ true
    → (kw_search ks s n is TokenType.tok_eof) ≡ false
unfolding ends_none kw_search ◌is◌
kw_search-ne-eof [] s n h = refl
kw_search-ne-eof (k ∷ ks) s n h = elim (Bool-cases (is_match k s n)) [
  | inl e ↦ rw e (ground arith)
  | inr e ↦ rw e (kw_search-ne-eof ks s n (ground arith))
]

pub kw_lookup-ne-eof : (s : Bytes) (n : ℕ) → (kw_lookup s n is TokenType.tok_eof) ≡ false
unfolding kw_lookup ends_none ◌is◌
kw_lookup-ne-eof s n = kw_search-ne-eof g_keywords s n refl

-- What `lex_token` makes in front of a token: one of these, with the text that it passes.
pub data IsToken (l : Lexer) (t : Token) (m : Lexer) : Type 0 where
  at_end : t.type ≡ TokenType.tok_eof → Scanned l [] t m → rest m ≡ [] → IsToken l t m
  word : IsWord l t m → IsToken l t m
  number :
      {w : Bytes}
      → t.type ≡ TokenType.tok_number
      → Scanned l w t m
      → IsNumber w (rest m)
      → IsToken l t m
  string : IsString l t m → IsToken l t m
  character : IsChar l t m → IsToken l t m
  operator :
      {w : Bytes}
      → Scanned l w t m
      → spelling t.type ≡ w
      → w ≢ []
      → ((c : ℕ) (u : TokenType) → w ≡ c ∷ [] → spelling u ≢ c ∷ m.ch ∷ [])
      → IsToken l t m
  unknown :
      (c : ℕ) → t.type ≡ TokenType.tok_eof → Scanned l (c ∷ []) t m → NoToken c → IsToken l t m

one_token :
    {l m : Lexer} {c : ℕ} (t : TokenType)
    → Consumes l (c ∷ []) m
    → Scanned l (c ∷ []) (make_token t l 1) m
one_token t p = record {
  moves = p;
  start_is = refl;
  length_is = omega arith;
  line_is = refl;
  col_is = refl;
}

none-NoToken :
    (c : ℕ)
    → c ≢ 0
    → is_alpha c ≡ false
    → is_digit c ≡ false
    → (c == b'"') ≡ false
    → (c == b'\'') ≡ false
    → operator_one c ≡ none
    → NoToken c
unfolding is_alpha is_digit
none-NoToken c z a d q p o = record {
  some_byte = z;
  no_lower = λ (x, y). absurd (ground (arith, a, x, y));
  no_upper = λ (x, y). absurd (ground (arith, a, x, y));
  no_underscore = λ e. absurd (ground (arith, a, e));
  ascii = ground (arith, a);
  no_digit = λ (x, y). absurd (ground (arith, d, x, y));
  no_quote = λ e. absurd (ground (arith, q, e));
  no_apostrophe = λ e. absurd (ground (arith, p, e));
  no_operator = first_of_spelling c o;
}

lex_operator-IsToken :
    (l : Lexer)
    → IsValid l
    → l.ch ≢ 0
    → (operator_one l.ch ≡ none → NoToken l.ch)
    → IsToken l (lex_operator l).0 (lex_operator l).1
unfolding lex_operator
lex_operator-IsToken l v h no_token =
    let p = lex_advance-Consumes v h in
    elim (Option-cases (operator_two l.ch (lex_peek l))) [
      | inr (t, e) ↦
          rw (e, lex_operator)
            (operator
              (record {
                moves =
                    two-Consumes l.ch (lex_peek l) v refl refl h (operator_two-ne-zero l.ch _ e);
                start_is = refl;
                length_is = omega arith;
                line_is = refl;
                col_is = refl;
              })
              (operator_two-spelling l.ch (lex_peek l) t e) (cc) (λ c u w. absurd (cc w)))
      | inl e ↦ elim (Option-cases (operator_one l.ch)) [
        | inr (t, f) ↦
            rw (e, f, lex_operator)
              (operator (one_token t p) (operator_one-spelling l.ch t f) (cc) (λ c u w q.
                let same : c ∷ (lex_advance l).ch ∷ [] ≡ l.ch ∷ lex_peek l ∷ [] =
                  cc (w, lex_peek-head0 v h) in
                two_of_spelling l.ch (lex_peek l) e u (q ∙ same)))
        | inl f ↦
            rw (e, f, lex_operator) (unknown l.ch refl (one_token TokenType.tok_eof p) (no_token f))
      ]
    ]

number_type : (l : Lexer) → (lex_number l).0.type ≡ TokenType.tok_number
unfolding lex_number
number_type l = refl

lex_token-IsToken : (l : Lexer) → IsValid l → IsToken l (lex_token l).0 (lex_token l).1
unfolding lex_token
lex_token-IsToken l v = elim (Bool-cases (l.ch == 0)) [
  | inl z ↦ rw z (
      at_end refl
        (record {
          moves = Consumes-refl v;
          start_is = refl;
          length_is = refl;
          line_is = refl;
          col_is = refl;
        })
        (rest-end v (ground arith)))
  | inr nz ↦ elim (Bool-cases (is_alpha l.ch)) [
    | inl a ↦ rw (nz, a) (word (lex_word-IsWord l v a))
    | inr na ↦ elim (Bool-cases (is_digit l.ch)) [
      | inl d ↦
          let (w, s, n) = lex_number-IsNumber l v d in rw (nz, na, d) (number (number_type l) s n)
      | inr nd ↦ elim (Bool-cases (l.ch == b'"')) [
        | inl q ↦ rw (nz, na, nd, q) (string (lex_string-IsString l v q))
        | inr nq ↦ elim (Bool-cases (l.ch == b'\'')) [
          | inl c ↦ rw (nz, na, nd, nq, c) (character (lex_char-IsChar l v c))
          | inr nc ↦
              rw (nz, na, nd, nq, nc)
                (let some_byte : l.ch ≢ 0 = λ z. absurd (ground (arith, nz, z)) in
                  lex_operator-IsToken l v some_byte (none-NoToken l.ch some_byte na nd nq nc))
        ]
      ]
    ]
  ]
]

-- From a valid state `lex_next` skips trivia and makes one token at the place where the trivia
-- ends: a text of its grammar, where a word, a number and an operator are as long as they
-- can be, or a `TOK_EOF` at the end or at a byte that begins no token.
pub lex_next-IsToken :
    (l : Lexer)
    → IsValid l
    → Skips l (lex_skip_ws l) × IsToken (lex_skip_ws l) (lex_next l).0 (lex_next l).1
unfolding lex_next
lex_next-IsToken l v =
    let s = lex_skip_ws-Skips l v in (s, lex_token-IsToken (lex_skip_ws l) s.moves.valid)
