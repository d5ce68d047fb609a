-- ===== src/Lexer/Scan/Words/Grammar.antt =====
-- The numbers of the source language (apps/kinal/src/kn_lexer.c, lex_next at a digit), and how
-- lex_next tells their parts.
use kinal.CString.{head0, tail0}
use kinal.Lexer.Moves.{
  IsValid, Consumes, Consumes-refl, one_Consumes, lex_advance-Consumes, lex_peek-head0, ch-head0,
}
use kinal.Lexer.Scan.{scan_suffix, is_hex_start}
use kinal.Lexer.State.{Lexer, rest, lex_advance, lex_peek, is_digit, is_hex_digit}
use kinal.Prelude.{
  append_assoc, subst, ℕ, true, false, ◌&&◌, [], ◌∷◌, ◌++◌, ◌≡◌, ◌≢◌, refl, sym, ap, ◌∙◌, ◌⊎◌, inl,
  inr, arith, ◌==◌, Bool-cases, Bytes, All,
}

-- The suffix of a number in front of `r`: an `f` wherever one stands.
abbrev pub IsSuffix : Bytes → Bytes → Type 0
IsSuffix s r = ((s ≡ []) × (head0 r ≢ b'f') × (head0 r ≢ b'F')) ⊎ (s ≡ b'f' ∷ []) ⊎ (s ≡ b'F' ∷ [])

-- No point with a digit behind it begins `r`.
abbrev pub NoFraction : Bytes → Type 0
NoFraction r = (d : ℕ) (t : Bytes) → r ≡ b'.' ∷ d ∷ t → is_digit d ≡ false

-- Neither 0x nor 0X begins `r`.
abbrev pub NoHex : Bytes → Type 0
NoHex r = (x : ℕ) (t : Bytes) → r ≡ b'0' ∷ x ∷ t → (x ≢ b'x') × (x ≢ b'X')

-- The numbers `w` that stand in front of `r`: hexadecimal digits behind 0x, or decimal digits with a
-- fraction or none, and an `f` at the end or none. Each part is as long as it can be: no digit
-- stands behind digits, and what may follow them is taken where it stands.
pub data IsNumber (w r : Bytes) : Type 0 where
  hex :
      (x : ℕ) (digits suffix : Bytes)
      → (x ≡ b'x') ⊎ (x ≡ b'X')
      → All (λ c. is_hex_digit c ≡ true) digits
      → is_hex_digit (head0 (suffix ++ r)) ≡ false
      → IsSuffix suffix r
      → w ≡ b'0' ∷ x ∷ (digits ++ suffix)
      → IsNumber w r
  whole :
      (digits suffix : Bytes)
      → digits ≢ []
      → All (λ c. is_digit c ≡ true) digits
      → is_digit (head0 (suffix ++ r)) ≡ false
      → NoFraction (suffix ++ r)
      → NoHex (w ++ r)
      → IsSuffix suffix r
      → w ≡ digits ++ suffix
      → IsNumber w r
  fraction :
      (digits decimals suffix : Bytes)
      → digits ≢ []
      → All (λ c. is_digit c ≡ true) digits
      → decimals ≢ []
      → All (λ c. is_digit c ≡ true) decimals
      → is_digit (head0 (suffix ++ r)) ≡ false
      → NoHex (w ++ r)
      → IsSuffix suffix r
      → w ≡ (digits ++ b'.' ∷ decimals) ++ suffix
      → IsNumber w r

pub scan_suffix_lem :
    (l : Lexer)
    → IsValid l
    → (s : Bytes) × Consumes l s (scan_suffix l) × IsSuffix s (rest (scan_suffix l))
unfolding scan_suffix
scan_suffix_lem l v = elim (Bool-cases (l.ch == b'f')) [
  | inl f ↦ rw f (b'f' ∷ [], one_Consumes v (ground arith) (omega arith), inr (inl refl))
  | inr nf ↦ elim (Bool-cases (l.ch == b'F')) [
    | inl f ↦ rw (nf, f) (b'F' ∷ [], one_Consumes v (ground arith) (omega arith), inr (inr refl))
    | inr g ↦
        let at = ch-head0 v in
        rw (nf, g)
          (
            [],
            Consumes-refl v,
            inl (
              refl,
              (λ e. absurd (ground (arith, at, e, nf))),
              (λ e. absurd (ground (arith, at, e, g))),
            ),
          )
  ]
]

peek_is :
    {l : Lexer} (c d : ℕ) (t : Bytes) → IsValid l → c ≢ 0 → rest l ≡ c ∷ d ∷ t → lex_peek l ≡ d
peek_is {l} c d t v h r =
    let some_byte : l.ch ≢ 0 = λ z. h (sym (ch-head0 v ∙ ap head0 r) ∙ z) in
    let p = lex_advance-Consumes v some_byte in
    let next : rest (lex_advance l) ≡ d ∷ t = ap tail0 (sym p.text ∙ r) in
    lex_peek-head0 v some_byte ∙ ch-head0 p.valid ∙ ap head0 next

pub NoFraction-scan :
    (k : Lexer) → IsValid k → (k.ch == b'.' && is_digit (lex_peek k)) ≡ false → NoFraction (rest k)
NoFraction-scan k v e d t r =
    let dot : k.ch ≡ b'.' = ch-head0 v ∙ ap head0 r in
    let next : lex_peek k ≡ d = peek_is b'.' d t v (omega arith) r in
    ground (arith, e, dot, ap is_digit next)

pub NoHex-scan : (l : Lexer) → IsValid l → is_hex_start l ≡ false → NoHex (rest l)
unfolding is_hex_start
NoHex-scan l v e x t r =
    let zero : l.ch ≡ b'0' = ch-head0 v ∙ ap head0 r in
    let next : lex_peek l ≡ x = peek_is b'0' x t v (omega arith) r in
    (
      (λ z. absurd (ground (arith, e, zero, next, z))),
      (λ z. absurd (ground (arith, e, zero, next, z))),
    )

pub NoHex-parts :
    (l : Lexer) (w s r : Bytes) → NoHex (rest l) → rest l ≡ w ++ (s ++ r) → NoHex ((w ++ s) ++ r)
NoHex-parts l w s r h e = subst NoHex (e ∙ sym (append_assoc w s r)) h
