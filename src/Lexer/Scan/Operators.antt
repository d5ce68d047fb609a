-- ===== src/Lexer/Scan/Operators.antt =====
-- The operators (apps/kinal/src/kn_lexer.c, the end of lex_next): their texts, and the bytes with
-- which no token begins.
use kinal.CString.{NoNul, head0, tail0}
use kinal.Lexer.Scan.{operator_two, operator_one}
use kinal.Lexer.Token.{TokenType}
use mathlib.Core.Option.{some-injective}
use mathlib.Core.Path.{ap₂}
use kinal.Prelude.{
  ℕ, Bool, true, false, ◌&&◌, [], ◌∷◌, Option, none, some, ◌≡◌, ◌≢◌, ◌≤◌, ◌<◌, refl, sym, ap, ◌∙◌,
  subst, arith, ◌==◌, if◌then◌else◌, Bytes, codes,
}

-- The text of each operator.
abbrev pub spelling : TokenType → Bytes
spelling TokenType.tok_eq = codes "=="
spelling TokenType.tok_ne = codes "!="
spelling TokenType.tok_le = codes "<="
spelling TokenType.tok_ge = codes ">="
spelling TokenType.tok_shl = codes "<<"
spelling TokenType.tok_shr = codes ">>"
spelling TokenType.tok_andand = codes "&&"
spelling TokenType.tok_oror = codes "||"
spelling TokenType.tok_plusplus = codes "++"
spelling TokenType.tok_minusminus = codes "--"
spelling TokenType.tok_plus_assign = codes "+="
spelling TokenType.tok_minus_assign = codes "-="
spelling TokenType.tok_star_assign = codes "*="
spelling TokenType.tok_slash_assign = codes "/="
spelling TokenType.tok_percent_assign = codes "%="
spelling TokenType.tok_lparen = codes "("
spelling TokenType.tok_rparen = codes ")"
spelling TokenType.tok_lbrace = codes "{"
spelling TokenType.tok_rbrace = codes "}"
spelling TokenType.tok_lbracket = codes "["
spelling TokenType.tok_rbracket = codes "]"
spelling TokenType.tok_comma = codes ","
spelling TokenType.tok_semi = codes ";"
spelling TokenType.tok_dot = codes "."
spelling TokenType.tok_colon = codes ":"
spelling TokenType.tok_question = codes "?"
spelling TokenType.tok_at = codes "@"
spelling TokenType.tok_plus = codes "+"
spelling TokenType.tok_minus = codes "-"
spelling TokenType.tok_star = codes "*"
spelling TokenType.tok_slash = codes "/"
spelling TokenType.tok_percent = codes "%"
spelling TokenType.tok_assign = codes "="
spelling TokenType.tok_lt = codes "<"
spelling TokenType.tok_gt = codes ">"
spelling TokenType.tok_not = codes "!"
spelling TokenType.tok_amp = codes "&"
spelling TokenType.tok_bitor = codes "|"
spelling TokenType.tok_xor = codes "^"
spelling TokenType.tok_tilde = codes "~"
spelling _ = []

-- One rung of a ladder of tests that gives a token of the tested text.
rung :
    {rest : Option TokenType} {t : TokenType} (b : Bool) (u : TokenType) (w : Bytes)
    → (b ≡ true → spelling u ≡ w)
    → (rest ≡ some t → spelling t ≡ w)
    → (if b then some u else rest) ≡ some t
    → spelling t ≡ w
rung true u w here later e = subst (λ x. spelling x ≡ w) (some-injective u _ e) (here refl)
rung false u w here later e = later e

pub operator_two-spelling :
    (c n : ℕ) (t : TokenType) → operator_two c n ≡ some t → spelling t ≡ c ∷ n ∷ []
unfolding operator_two
operator_two-spelling c n t =
    rung (c == b'=' && n == b'=') TokenType.tok_eq _ (λ e. ground arith)
      (rung (c == b'!' && n == b'=') TokenType.tok_ne _ (λ e. ground arith)
        (rung (c == b'<' && n == b'=') TokenType.tok_le _ (λ e. ground arith)
          (rung (c == b'>' && n == b'=') TokenType.tok_ge _ (λ e. ground arith)
            (rung (c == b'<' && n == b'<') TokenType.tok_shl _ (λ e. ground arith)
              (rung (c == b'>' && n == b'>') TokenType.tok_shr _ (λ e. ground arith)
                (rung (c == b'&' && n == b'&') TokenType.tok_andand _ (λ e. ground arith)
                  (rung (c == b'|' && n == b'|') TokenType.tok_oror _ (λ e. ground arith)
                    (rung (c == b'+' && n == b'+') TokenType.tok_plusplus _ (λ e. ground arith)
                      (rung (c == b'-' && n == b'-') TokenType.tok_minusminus _ (λ e. ground arith)
                        (rung (c == b'+' && n == b'=') TokenType.tok_plus_assign _
                          (λ e. ground arith)
                          (rung (c == b'-' && n == b'=') TokenType.tok_minus_assign _
                            (λ e. ground arith)
                            (rung (c == b'*' && n == b'=') TokenType.tok_star_assign _
                              (λ e. ground arith)
                              (rung (c == b'/' && n == b'=') TokenType.tok_slash_assign _
                                (λ e. ground arith)
                                (rung (c == b'%' && n == b'=') TokenType.tok_percent_assign _
                                  (λ e. ground arith) (λ e. cc)))))))))))))))

spelling-NoNul : (t : TokenType) → NoNul (spelling t)
spelling-NoNul TokenType.tok_eof = tt
spelling-NoNul _ = omega arith

pub operator_two-ne-zero : (c n : ℕ) {t : TokenType} → operator_two c n ≡ some t → n ≢ 0
operator_two-ne-zero c n {t} h z =
    let all = subst NoNul (operator_two-spelling c n t h) (spelling-NoNul t) in
    omega (arith, all.1.0)

pub operator_one-spelling : (c : ℕ) (t : TokenType) → operator_one c ≡ some t → spelling t ≡ c ∷ []
unfolding operator_one
operator_one-spelling c t =
    rung (c == b'(') TokenType.tok_lparen _ (λ e. ground arith)
      (rung (c == b')') TokenType.tok_rparen _ (λ e. ground arith)
        (rung (c == b'{') TokenType.tok_lbrace _ (λ e. ground arith)
          (rung (c == b'}') TokenType.tok_rbrace _ (λ e. ground arith)
            (rung (c == b'[') TokenType.tok_lbracket _ (λ e. ground arith)
              (rung (c == b']') TokenType.tok_rbracket _ (λ e. ground arith)
                (rung (c == b',') TokenType.tok_comma _ (λ e. ground arith)
                  (rung (c == b';') TokenType.tok_semi _ (λ e. ground arith)
                    (rung (c == b'.') TokenType.tok_dot _ (λ e. ground arith)
                      (rung (c == b':') TokenType.tok_colon _ (λ e. ground arith)
                        (rung (c == b'?') TokenType.tok_question _ (λ e. ground arith)
                          (rung (c == b'@') TokenType.tok_at _ (λ e. ground arith)
                            (rung (c == b'+') TokenType.tok_plus _ (λ e. ground arith)
                              (rung (c == b'-') TokenType.tok_minus _ (λ e. ground arith)
                                (rung (c == b'*') TokenType.tok_star _ (λ e. ground arith)
                                  (rung (c == b'/') TokenType.tok_slash _ (λ e. ground arith)
                                    (rung (c == b'%') TokenType.tok_percent _ (λ e. ground arith)
                                      (rung (c == b'=') TokenType.tok_assign _ (λ e. ground arith)
                                        (rung (c == b'<') TokenType.tok_lt _ (λ e. ground arith)
                                          (rung (c == b'>') TokenType.tok_gt _ (λ e. ground arith)
                                            (rung (c == b'!') TokenType.tok_not _
                                              (λ e. ground arith)
                                              (rung (c == b'&') TokenType.tok_amp _
                                                (λ e. ground arith)
                                                (rung (c == b'|') TokenType.tok_bitor _
                                                  (λ e. ground arith)
                                                  (rung (c == b'^') TokenType.tok_xor _
                                                    (λ e. ground arith)
                                                    (rung (c == b'~') TokenType.tok_tilde _
                                                      (λ e. ground arith)
                                                      (λ e. cc)))))))))))))))))))))))))

-- A byte with which no token begins: no letter, `_` or byte from 0x80 on, no digit, no quote, and no
-- operator's first byte.
pub record NoToken (c : ℕ) : Type 0 where
  pub some_byte : c ≢ 0
  pub no_lower : ¬ ((b'a' ≤ c) × (c ≤ b'z'))
  pub no_upper : ¬ ((b'A' ≤ c) × (c ≤ b'Z'))
  pub no_underscore : c ≢ b'_'
  pub ascii : c < 0x80
  pub no_digit : ¬ ((b'0' ≤ c) × (c ≤ b'9'))
  pub no_quote : c ≢ b'"'
  pub no_apostrophe : c ≢ b'\''
  pub no_operator : (u : TokenType) (w : Bytes) → spelling u ≢ c ∷ w

pub first_of_spelling :
    (c : ℕ) → operator_one c ≡ none → (u : TokenType) (w : Bytes) → spelling u ≢ c ∷ w
unfolding operator_one
first_of_spelling c h TokenType.tok_eof w e = absurd (cc e)
first_of_spelling c h u w e =
    let none_there : operator_one (head0 (spelling u)) ≡ none =
      subst (λ k. operator_one k ≡ none) (sym (ap head0 e)) h in
    absurd (cc (e, none_there))

pub two_of_spelling :
    (c n : ℕ) → operator_two c n ≡ none → (u : TokenType) → spelling u ≢ c ∷ n ∷ []
unfolding operator_two
two_of_spelling c n h TokenType.tok_eof e = absurd (cc e)
two_of_spelling c n h u e =
    let none_there : operator_two (head0 (spelling u)) (head0 (tail0 (spelling u))) ≡ none =
      ap₂ operator_two (ap head0 e) (ap (λ x. head0 (tail0 x)) e) ∙ h in
    absurd (cc (e, none_there))
