-- ===== src/Format/Spaces.antt =====
-- Where the formatter parts two tokens, and where it does not.
use kinal.Format.Buffer.{FmtBuf, last_is, fmt_buf_last_is_space, fmt_trim_trailing_spaces}
use kinal.Format.Classes.{fmt_token_is_word}
use kinal.Format.Emit.{
  fmt_token_is_block_brace, closes, opens, fmt_need_space_before, before_rbrace, starts_line,
  before_space, emit_before, token_text, emit_text, emit_depths, emit_after, fmt_emit_token,
}
use kinal.Format.Ink.Steps.{bytes-append, bytes-append_char, emit_before-Writes}
use kinal.Format.Ink.{ink}
use kinal.Format.State.{
  FmtState, indent_loop, fmt_emit_indent, fmt_emit_newline, newline_unless_start,
  fmt_emit_blank_line_if_needed, fmt_emit_space_if_needed,
}
use kinal.Lexer.Token.{TokenType, Token, ◌is◌}
use kinal.Prelude.{
  ℕ, zero, suc, Bool, true, false, not, [], ◌∷◌, ◌++◌, ◌≡◌, refl, sym, ap, subst, ◌∙◌, ◌⊎◌, inl,
  inr, arith, if◌then◌else◌, Bool-cases, Bytes, length, codes, ltb, append_assoc,
}

-- What a word of the formatter's table is not.
record WordFacts (t : TokenType) : Type 0 where
  not_closing : closes t ≡ false
  not_opening : opens t ≡ false
  not_rbracket : (t is TokenType.tok_rbracket) ≡ false
  not_lbracket : (t is TokenType.tok_lbracket) ≡ false
  not_lparen : (t is TokenType.tok_lparen) ≡ false
  not_rparen : (t is TokenType.tok_rparen) ≡ false
  not_lbrace : (t is TokenType.tok_lbrace) ≡ false
  not_rbrace : (t is TokenType.tok_rbrace) ≡ false
  not_semi : (t is TokenType.tok_semi) ≡ false
  not_comma : (t is TokenType.tok_comma) ≡ false
  not_colon : (t is TokenType.tok_colon) ≡ false

word_facts : (t : TokenType) → fmt_token_is_word t ≡ true → WordFacts t
unfolding fmt_token_is_word closes opens ◌is◌
word_facts TokenType.tok_eof h = absurd (cc)
word_facts _ h = ground arith

-- Two tokens of the word table with no white space at the end of a line need a space.
need_space-words :
    (st : FmtState) (t : Token)
    → st.has_prev ≡ true
    → st.line_start ≡ false
    → fmt_token_is_word st.prev.type ≡ true
    → fmt_token_is_word t.type ≡ true
    → fmt_need_space_before st t ≡ true
unfolding fmt_need_space_before
need_space-words st t p l w v =
    let a = word_facts st.prev.type w in
    let b = word_facts t.type v in
    ground (arith, a.not_opening, a.not_rbracket, b.not_closing, b.not_lbracket, b.not_lparen)

last_is-concat : (c : ℕ) (s : Bytes) → last_is c (s ++ c ∷ []) ≡ true
unfolding last_is
last_is-concat c [] = ground arith
last_is-concat c (x ∷ []) = ground arith
last_is-concat c (x ∷ y ∷ s) = last_is-concat c (y ∷ s)

abbrev pub EndsWhite : Bytes → Type 0
EndsWhite s = (last_is b' ' s ≡ true) ⊎ (last_is b'\n' s ≡ true)

-- The two line ends of the formatter.
abbrev pub IsNewline : Bytes → Type 0
IsNewline s = (s ≡ codes "\n") ⊎ (s ≡ codes "\r\n")

-- The start of a line.
record Fresh (s : FmtState) : Type 0 where
  starts : s.line_start ≡ true
  white : EndsWhite s.out.bytes
  line_end : IsNewline s.newline

-- A state that the steps before a token have left alone, or one at the start of a line.
data Mode (st s : FmtState) : Type 0 where
  same : s ≡ st → Mode st s
  fresh : Fresh s → Mode st s

pub ends_newline : (s n : Bytes) → IsNewline n → last_is b'\n' (s ++ n) ≡ true
ends_newline s n (inl e) = rw e (last_is-concat b'\n' s)
ends_newline s n (inr e) = rw e (
    subst (λ x. last_is b'\n' x ≡ true) (append_assoc s (b'\r' ∷ []) (b'\n' ∷ []))
      (last_is-concat b'\n' (s ++ b'\r' ∷ [])))

pick_then : (x y : FmtState) (b : Bool) → b ≡ true → (if b then x else y) ≡ x
pick_then x y b e = rw e

pick_else : (x y : FmtState) (b : Bool) → b ≡ false → (if b then x else y) ≡ y
pick_else x y b e = rw e

emit_newline-Fresh : (s : FmtState) → IsNewline s.newline → Fresh (fmt_emit_newline s)
unfolding fmt_emit_newline
emit_newline-Fresh s n = record {
  starts = refl;
  white = inr (
      ap (last_is b'\n') (bytes-append (fmt_trim_trailing_spaces s.out) s.newline)
      ∙ ends_newline _ s.newline n);
  line_end = n;
}

Fresh-if : {s x : FmtState} (b : Bool) → Fresh x → Fresh s → Fresh (if b then x else s)
Fresh-if true p q = p
Fresh-if false p q = q

Mode-if : {st s x : FmtState} (b : Bool) → Mode st x → Mode st s → Mode st (if b then x else s)
Mode-if true p q = p
Mode-if false p q = q

-- In the middle of a line the steps keep this classification.
module _ (st : FmtState) (mid_line : st.line_start ≡ false) (n : IsNewline st.newline) where
  newline_unless_start-Fresh : (s : FmtState) → Mode st s → Fresh (newline_unless_start s)
  unfolding newline_unless_start
  newline_unless_start-Fresh s (same e) =
      let mid : s.line_start ≡ false = ap FmtState.line_start e ∙ mid_line in
      subst Fresh (sym (pick_then _ _ (not s.line_start) (ap not mid)))
        (emit_newline-Fresh s (subst IsNewline (ap FmtState.newline (sym e)) n))
  newline_unless_start-Fresh s (fresh f) =
      subst Fresh (sym (pick_else _ _ (not s.line_start) (ap not f.starts))) f

  blank_line-Mode : (s : FmtState) → Mode st s → Mode st (fmt_emit_blank_line_if_needed s)
  unfolding fmt_emit_blank_line_if_needed
  blank_line-Mode s m =
      let a = newline_unless_start s in
      let f = newline_unless_start-Fresh s m in
      let g = Fresh-if (ltb 0 (length a.out.bytes)) (emit_newline-Fresh a f.line_end) f in
      Mode-if (not s.pending_blank_line) m
        (fresh (record { starts = g.starts; white = g.white; line_end = g.line_end }))

  before_space-Mode :
      (b : Bool) (t : Token)
      → (t.type is TokenType.tok_rbrace) ≡ false
      → Mode st (before_space b t st)
  unfolding before_space before_rbrace
  before_space-Mode b t r =
      rw r (blank_line-Mode _ (Mode-if b (fresh (newline_unless_start-Fresh _ first)) first))
    where
      first : Mode st (if starts_line t.type then newline_unless_start st else st)
      first =
          Mode-if (starts_line t.type) (fresh (newline_unless_start-Fresh st (same refl)))
            (same refl)

indent_loop-EndsWhite : (n : ℕ) (b : FmtBuf) → EndsWhite b.bytes → EndsWhite (indent_loop n b).bytes
unfolding indent_loop
indent_loop-EndsWhite zero b h = h
indent_loop-EndsWhite (suc n) b h =
    indent_loop-EndsWhite n _
      (inl (ap (last_is b' ') (bytes-append b (codes "    ")) ∙ blanks b.bytes))
  where
    blanks : (s : Bytes) → last_is b' ' (s ++ codes "    ") ≡ true
    blanks s =
        subst (λ x. last_is b' ' x ≡ true) (append_assoc s (codes "   ") (b' ' ∷ []))
          (last_is-concat b' ' (s ++ codes "   "))

emit_indent-EndsWhite :
    (s : FmtState) → EndsWhite s.out.bytes → EndsWhite (fmt_emit_indent s).out.bytes
unfolding fmt_emit_indent
emit_indent-EndsWhite s h = elim (Bool-cases (not s.line_start)) [
  | inl e ↦ subst (λ x. EndsWhite x.out.bytes) (sym (pick_then _ _ (not s.line_start) e)) h
  | inr e ↦
      subst (λ x. EndsWhite x.out.bytes) (sym (pick_else _ _ (not s.line_start) e))
        (indent_loop-EndsWhite s.indent s.out h)
]

emit_space-EndsWhite :
    (s : FmtState) → s.line_start ≡ false → EndsWhite (fmt_emit_space_if_needed s).out.bytes
unfolding fmt_emit_space_if_needed fmt_buf_last_is_space
emit_space-EndsWhite s l =
    subst (λ x. EndsWhite x.out.bytes) (sym (pick_else _ _ s.line_start l))
      (elim (Bool-cases (last_is b' ' s.out.bytes)) [
        | inl e ↦ subst (λ x. EndsWhite x.out.bytes) (sym (pick_then _ _ _ e)) (inl e)
        | inr e ↦
            subst (λ x. EndsWhite x.out.bytes) (sym (pick_else _ _ _ e))
              (inl (
                ap (last_is b' ') (bytes-append_char s.out b' ') ∙ last_is-concat b' ' s.out.bytes))
      ])

-- The start of a line needs no space.
need_space-start :
    (s : FmtState) (t : Token) → s.line_start ≡ true → fmt_need_space_before s t ≡ false
unfolding fmt_need_space_before
need_space-start s t l = ground arith

emit_before-EndsWhite :
    (b : Bool) (st : FmtState) (t : Token)
    → IsNewline st.newline
    → st.has_prev ≡ true
    → st.line_start ≡ false
    → fmt_token_is_word st.prev.type ≡ true
    → fmt_token_is_word t.type ≡ true
    → EndsWhite (emit_before b t st).out.bytes
unfolding emit_before
emit_before-EndsWhite b st t n p l w v =
    let d = before_space b t st in
    elim (before_space-Mode st l n b t (word_facts t.type v).not_rbrace) [
      | same e ↦
          let need : fmt_need_space_before d t ≡ true =
            ap (λ x. fmt_need_space_before x t) e ∙ need_space-words st t p l w v in
          emit_indent-EndsWhite _ (
            subst (λ x. EndsWhite x.out.bytes) (sym (pick_then _ _ _ need))
              (emit_space-EndsWhite d (ap FmtState.line_start e ∙ l)))
      | fresh f ↦ emit_indent-EndsWhite _ (
          subst (λ x. EndsWhite x.out.bytes) (sym (pick_else _ _ _ (need_space-start d t f.starts)))
            f.white)
    ]

pub newline_blank : (n : Bytes) → IsNewline n → ink n ≡ []
unfolding ink
newline_blank n (inl e) = rw e
newline_blank n (inr e) = rw e

-- A token of the word table moves no output behind its text.
emit_after-word :
    (t next : TokenType) (st : FmtState)
    → fmt_token_is_word t ≡ true
    → (emit_after t next st).out.bytes ≡ st.out.bytes
unfolding emit_after
emit_after-word t next st v =
    let f = word_facts t v in
    ground (arith, f.not_lbrace, f.not_rbrace, f.not_semi, f.not_comma, f.not_colon)

emit_depths-out : (t : TokenType) (st : FmtState) → (emit_depths t st).out.bytes ≡ st.out.bytes
unfolding emit_depths
emit_depths-out t st = ground arith

-- Two neighbouring tokens that `fmt_token_is_word` accepts never run together: in the middle of a
-- line, with the line end of either kind, the output of the second is what was written before it,
-- ended by a space or a newline, and then the token's text.
pub emit_token-parts_words :
    (st : FmtState) (t next : Token)
    → IsNewline st.newline
    → st.has_prev ≡ true
    → st.line_start ≡ false
    → fmt_token_is_word st.prev.type ≡ true
    → fmt_token_is_word t.type ≡ true
    → (front : Bytes) × ((fmt_emit_token st t next).out.bytes ≡ front ++ token_text st.src t)
      × EndsWhite front
unfolding fmt_emit_token emit_text
emit_token-parts_words st t next n p l w v =
    let b = fmt_token_is_block_brace st t in
    let a = emit_before b t st in
    let src_is : a.src ≡ st.src = (emit_before-Writes b t st (newline_blank st.newline n)).src_is in
    (
      a.out.bytes,
      emit_after-word t.type next.type _ v
          ∙ emit_depths-out t.type _
          ∙ bytes-append a.out (token_text a.src t)
          ∙ ap (λ s. a.out.bytes ++ token_text s t) src_is,
      emit_before-EndsWhite b st t n p l w v,
    )
