-- ===== src/Lexer/Scan/Strings.antt =====
-- String literals: `has_closing_quote_before_eol` decides beforehand what the loop of `lex_string`
-- meets.
use kinal.Lexer.Moves.{
  IsValid, Consumes, Consumes-refl, Consumes-trans, lex_advance-Consumes, left-lex_advance,
  left-Consumes, one_Consumes, rest-end, ch-end,
}
use kinal.Lexer.Scan.{
  closing_quote, has_closing_quote_before_eol, is_eol, ends_bad_string, scan_escape, string_loop,
  lex_string,
}
use kinal.Lexer.Scan.Words.{Scanned, Scanned-token_from}
use kinal.Lexer.State.{Lexer, rest, lex_advance, left}
use kinal.Lexer.Token.{TokenType, Token}
use native.Mathlib.Nat.{le_refl}
use kinal.Prelude.{
  ℕ, zero, suc, ◌≤◌, ◌<◌, Bool, true, false, not, ◌&&◌, [], ◌∷◌, ◌++◌, ◌≡◌, ◌≢◌, refl, sym, ap, ◌∙◌,
  ◌⊎◌, inl, inr, arith, ◌==◌, Bool-cases, Bytes, length, All, All-append,
}

-- What may stand behind an opening quote, up to the closing one: no end of a line, a backslash with
-- the byte that it escapes, no other quote.
pub data IsStringTail : Bytes → Type 0 where
  quote : {u : Bytes} → u ≡ b'"' ∷ [] → IsStringTail u
  plain :
      {c : ℕ} {u w : Bytes}
      → c ≢ b'"'
      → c ≢ b'\\'
      → is_eol c ≡ false
      → IsStringTail w
      → u ≡ c ∷ w
      → IsStringTail u
  escape :
      {d : ℕ} {u w : Bytes} → is_eol d ≡ false → IsStringTail w → u ≡ b'\\' ∷ d ∷ w → IsStringTail u

closing_quote-rest :
    {l : Lexer} (b : Bool)
    → IsValid l
    → l.ch ≢ 0
    → closing_quote b (rest l) ≡ true
    → closing_quote b (l.ch ∷ rest (lex_advance l)) ≡ true
closing_quote-rest b v h e = sym (ap (closing_quote b) (lex_advance-Consumes v h).text) ∙ e

closing_quote_end : {l : Lexer} (b : Bool) → IsValid l → closing_quote b (rest l) ≡ true → l.ch ≢ 0
unfolding closing_quote
closing_quote_end b v e z = cc (ap (closing_quote b) (rest-end v z))

-- A backslash in a string passes the byte behind it too, which is not the end of the line.
escape_step :
    (l : Lexer)
    → IsValid l
    → (l.ch == b'\\') ≡ true
    → closing_quote false (l.ch ∷ rest (lex_advance l)) ≡ true
    → (d : ℕ) × Consumes l (b'\\' ∷ d ∷ []) (scan_escape l)
      × (is_eol d ≡ false)
      × (closing_quote false (rest (scan_escape l)) ≡ true)
unfolding scan_escape
escape_step l v s q =
    let e = lex_advance l in
    let one = one_Consumes {c = b'\\'} v (ground arith) (omega arith) in
    let q2 : closing_quote true (rest e) ≡ true = unfold closing_quote in ground arith in
    let h = closing_quote_end true one.valid q2 in
    let q3 = closing_quote-rest true one.valid h q2 in
    let nz : (e.ch == 0) ≡ false = ground arith in
    let eol : is_eol e.ch ≡ false = unfold closing_quote is_eol in ground arith in
    rw (nz, eol)
      (
        e.ch,
        Consumes-trans one (lex_advance-Consumes one.valid h),
        eol,
        unfold closing_quote is_eol in ground arith,
      )

-- Where the closing quote is ahead, the loop passes a string's tail.
string_loop-IsStringTail :
    (n : ℕ) (l : Lexer)
    → IsValid l
    → left l ≤ n
    → closing_quote false (rest l) ≡ true
    → (w : Bytes) × Consumes l w (string_loop true n l) × IsStringTail w
unfolding string_loop
string_loop-IsStringTail zero l v f q = absurd (closing_quote_end false v q (ch-end v f))
string_loop-IsStringTail (suc n) l v f q =
    let h = closing_quote_end false v q in
    let q' = closing_quote-rest false v h q in
    let step = lex_advance-Consumes v h in
    let nz : (l.ch == 0) ≡ false = ground arith in
    elim (Bool-cases (l.ch == b'"')) [
      | inl e ↦ rw (nz, e) (b'"' ∷ [], one_Consumes v (ground arith) (omega arith), quote refl)
      | inr ne ↦ elim (Bool-cases (l.ch == b'\\')) [
        | inl s ↦
            let (d, p, eol, t) = escape_step l v s q' in
            let (w, r, y) =
              string_loop-IsStringTail n (scan_escape l) p.valid (omega (arith, left-Consumes v p))
                t in
            rw (nz, ne, s) (b'\\' ∷ d ∷ w, Consumes-trans p r, escape eol y refl)
        | inr ns ↦
            let eol : is_eol l.ch ≡ false = unfold closing_quote is_eol in ground arith in
            let (w, p, t) =
              string_loop-IsStringTail n (lex_advance l) step.valid (left-lex_advance v h f)
                (unfold closing_quote is_eol in ground arith) in
            rw (nz, ne, ns, eol)
              (l.ch ∷ w, Consumes-trans step p, plain (ground arith) (ground arith) eol t refl)
      ]
    ]

-- What an unterminated string passes: nothing of the next line.
pub record BadTail (l m : Lexer) : Type 0 where
  pub tail : Bytes
  pub moves : Consumes l tail m
  pub one_line : All (λ c. is_eol c ≡ false) tail
  pub stops : (m.ch ≡ 0) ⊎ (ends_bad_string m.ch ≡ true)

BadTail-cons :
    {l k m : Lexer} {w : Bytes}
    → Consumes l w k
    → All (λ c. is_eol c ≡ false) w
    → BadTail k m
    → BadTail l m
BadTail-cons {w = w} p h b = record {
  tail = w ++ b.tail;
  moves = Consumes-trans p b.moves;
  one_line = All-append _ w b.tail h b.one_line;
  stops = b.stops;
}

-- What `scan_escape` passes when the end of the line may follow: the backslash, and one byte more.
bad_escape :
    (l : Lexer)
    → IsValid l
    → (l.ch == b'\\') ≡ true
    → (w : Bytes) × Consumes l w (scan_escape l) × All (λ c. is_eol c ≡ false) w × (0 < length w)
unfolding scan_escape
bad_escape l v s =
    let e = lex_advance l in
    let one = one_Consumes {c = b'\\'} v (ground arith) (omega arith) in
    elim (Bool-cases (not (e.ch == 0) && not (is_eol e.ch))) [
      | inl t ↦
          let h : e.ch ≢ 0 = ground arith in
          rw t (
            b'\\' ∷ e.ch ∷ [],
            Consumes-trans one (lex_advance-Consumes one.valid h),
            (backslash, (ground arith, tt)),
            omega arith,
          )
      | inr t ↦ rw t (b'\\' ∷ [], one, (backslash, tt), omega arith)
    ]
  where
    backslash : is_eol b'\\' ≡ false
    backslash = unfold is_eol in refl

string_loop-BadTail :
    (n : ℕ) (l : Lexer) → IsValid l → left l ≤ n → BadTail l (string_loop false n l)
unfolding string_loop
string_loop-BadTail zero l v f = record {
  tail = [];
  moves = Consumes-refl v;
  one_line = tt;
  stops = inl (ch-end v f);
}
string_loop-BadTail (suc n) l v f = elim (Bool-cases (l.ch == 0)) [
  | inl z ↦
      rw z
        (record { tail = []; moves = Consumes-refl v; one_line = tt; stops = inl (ground arith) })
  | inr nz ↦
      let h : l.ch ≢ 0 = ground arith in
      let step = lex_advance-Consumes v h in
      elim (Bool-cases (ends_bad_string l.ch)) [
        | inl e ↦
            rw (nz, e) (record { tail = []; moves = Consumes-refl v; one_line = tt; stops = inr e })
        | inr ne ↦
            let eol : is_eol l.ch ≡ false = unfold ends_bad_string is_eol in ground arith in
            elim (Bool-cases (l.ch == b'\\')) [
              | inl s ↦
                  let (w, p, o, pos) = bad_escape l v s in
                  rw (nz, ne, s)
                    (BadTail-cons p o (
                      string_loop-BadTail n (scan_escape l) p.valid
                        (omega (arith, left-Consumes v p))))
              | inr ns ↦
                  rw (nz, ne, ns, eol)
                    (BadTail-cons step (eol, tt)
                      (string_loop-BadTail n (lex_advance l) step.valid (left-lex_advance v h f)))
            ]
      ]
]

-- What `lex_string` makes at a quote.
pub data IsString (l : Lexer) (t : Token) (m : Lexer) : Type 0 where
  good :
      {tail : Bytes}
      → t.type ≡ TokenType.tok_string
      → Scanned l (b'"' ∷ tail) t m
      → IsStringTail tail
      → IsString l t m
  bad :
      {tail : Bytes}
      → t.type ≡ TokenType.tok_bad_string
      → Scanned l (b'"' ∷ tail) t m
      → All (λ c. is_eol c ≡ false) tail
      → (m.ch ≡ 0) ⊎ (ends_bad_string m.ch ≡ true)
      → IsString l t m

-- The look-ahead reads what stands behind the opening quote.
has_closing-rest :
    (l : Lexer)
    → (l.ch == b'"') ≡ true
    → has_closing_quote_before_eol l ≡ closing_quote false (rest (lex_advance l))
unfolding has_closing_quote_before_eol lex_advance
has_closing-rest l q = let nz : (l.ch == 0) ≡ false = ground arith in rw (q, nz)

-- At a quote, from a valid state, `lex_string` makes a `TOK_STRING` whose text ends at the first
-- closing quote of its line, or a `TOK_BAD_STRING` whose text stays in its line and ends before the
-- end of the source, a line end or one of `)`, `;` and `}`.
pub lex_string-IsString :
    (l : Lexer) → IsValid l → (l.ch == b'"') ≡ true → IsString l (lex_string l).0 (lex_string l).1
unfolding lex_string
lex_string-IsString l v q =
    let one = one_Consumes {c = b'"'} v (ground arith) (omega arith) in
    let ahead = has_closing-rest l q in
    elim (Bool-cases (has_closing_quote_before_eol l)) [
      | inl e ↦
          let (w, p, t) = string_loop-IsStringTail _ _ one.valid (le_refl _) (sym ahead ∙ e) in
          rw e (good refl (Scanned-token_from TokenType.tok_string (Consumes-trans one p)) t)
      | inr e ↦
          let b = string_loop-BadTail _ _ one.valid (le_refl _) in
          rw e (
            bad refl (Scanned-token_from TokenType.tok_bad_string (Consumes-trans one b.moves))
              b.one_line b.stops)
    ]
