-- ===== src/Format/Ink/Steps.antt =====
-- The ink that each step of the formatter writes.
use kinal.Format.Buffer.{
  FmtBuf, fmt_buf_reserve, fmt_buf_append, fmt_buf_append_char, trim, is_blank,
  fmt_trim_trailing_spaces, fmt_buf_last_is_space,
}
use kinal.Format.Emit.{
  before_space, emit_before, emit_text, emit_depths, emit_after, before_rbrace, fmt_emit_token,
  token_text, fmt_need_space_before, starts_line, fmt_token_is_block_brace,
}
use kinal.Format.Classes.{fmt_token_is_binary_operator, fmt_token_is_ambiguous_operator}
use kinal.Format.Ink.{ink, ink-append}
use kinal.Format.State.{
  FmtState, append_out, indent_loop, fmt_emit_indent, fmt_emit_newline, newline_unless_start,
  fmt_emit_blank_line_if_needed, fmt_emit_space_if_needed,
}
use kinal.Lexer.Token.{TokenType, Token, ◌is◌}
use kinal.Prelude.{
  ℕ, zero, suc, ◌+◌, Bool, true, false, not, ◌&&◌, [], ◌∷◌, ◌++◌, ◌≡◌, refl, sym, ap, subst, ltb,
  ◌∙◌, arith, append-nil, append_assoc, ◌==◌, if◌then◌else◌, Bytes, length, codes,
}

bytes-reserve : (b : FmtBuf) (n : ℕ) → (fmt_buf_reserve b n).bytes ≡ b.bytes
unfolding fmt_buf_reserve
bytes-reserve b n = ground arith

pub bytes-append : (b : FmtBuf) (s : Bytes) → (fmt_buf_append b s).bytes ≡ b.bytes ++ s
unfolding fmt_buf_append
bytes-append b [] = sym (append-nil b.bytes)
bytes-append b (c ∷ s) = ground (arith, bytes-reserve b (length (c ∷ s)))

pub bytes-append_char : (b : FmtBuf) (c : ℕ) → (fmt_buf_append_char b c).bytes ≡ b.bytes ++ c ∷ []
unfolding fmt_buf_append_char
bytes-append_char b c = ground (arith, bytes-reserve b 1)

pub ink-trim : (s : Bytes) → ink (trim s) ≡ ink s
unfolding ink trim is_blank
ink-trim [] = refl
ink-trim (c ∷ s) = ground (arith, ink-trim s)

-- From `st` to `st'` the step has written the ink of `w` and kept the source and the newline text.
pub record Writes (w : Bytes) (st st' : FmtState) : Type 0 where
  pub wrote : ink st'.out.bytes ≡ ink st.out.bytes ++ ink w
  pub src_is : st'.src ≡ st.src
  pub newline_is : st'.newline ≡ st.newline

pub Writes-trans :
    {v w : Bytes} {a b c : FmtState} → Writes v a b → Writes w b c → Writes (v ++ w) a c
Writes-trans {v} {w} {a} p q = record {
  wrote =
      q.wrote
      ∙ ap (◌++ ink w) p.wrote
      ∙ append_assoc _ (ink v) (ink w)
      ∙ ap (ink a.out.bytes ++◌) (sym (ink-append v w));
  src_is = q.src_is ∙ p.src_is;
  newline_is = q.newline_is ∙ p.newline_is;
}

-- A step that writes nothing.
pub Writes-keep :
    {st st' : FmtState}
    → st'.out.bytes ≡ st.out.bytes
    → st'.src ≡ st.src
    → st'.newline ≡ st.newline
    → Writes [] st st'
unfolding ink
Writes-keep o s n = record { wrote = ap ink o ∙ sym (append-nil _); src_is = s; newline_is = n }

pub Writes-behind : {w : Bytes} {a b c : FmtState} → Writes w a b → Writes [] b c → Writes w a c
Writes-behind {w} {a} {c = c} p q = subst (λ x. Writes x a c) (append-nil w) (Writes-trans p q)

pub Writes-refl : (st : FmtState) → Writes [] st st
Writes-refl st = Writes-keep refl refl refl

-- A line end that has no ink keeps that.
abbrev pub IsBlank : FmtState → Type 0
IsBlank st = ink st.newline ≡ []

pub Writes-IsBlank : {w : Bytes} {st st' : FmtState} → Writes w st st' → IsBlank st → IsBlank st'
Writes-IsBlank p h = ap ink p.newline_is ∙ h

-- Either branch of a test.
pub Writes-either :
    {w : Bytes} {st x y : FmtState} (b : Bool)
    → Writes w st x
    → Writes w st y
    → Writes w st (if b then x else y)
Writes-either true p q = p
Writes-either false p q = q

-- A step that is made or not.
pub Writes-if : (b : Bool) {st x : FmtState} → Writes [] st x → Writes [] st (if b then x else st)
Writes-if b {st} p = Writes-either b p (Writes-refl st)

pub append_out-Writes : (st : FmtState) (w : Bytes) → Writes w st (append_out st w)
append_out-Writes st w = record {
  wrote = ap ink (bytes-append st.out w) ∙ ink-append st.out.bytes w;
  src_is = refl;
  newline_is = refl;
}

-- Text of no ink adds none.
no_ink : (b : FmtBuf) (w : Bytes) → ink w ≡ [] → ink (fmt_buf_append b w).bytes ≡ ink b.bytes ++ []
no_ink b w h = ap ink (bytes-append b w) ∙ ink-append b.bytes w ∙ ap (ink b.bytes ++◌) h

indent_loop-ink : (n : ℕ) (b : FmtBuf) → ink (indent_loop n b).bytes ≡ ink b.bytes
unfolding indent_loop ink
indent_loop-ink zero b = refl
indent_loop-ink (suc n) b =
    indent_loop-ink n _ ∙ no_ink b (codes "    ") refl ∙ append-nil (ink b.bytes)

pub emit_indent-Writes : (st : FmtState) → Writes [] st (fmt_emit_indent st)
unfolding fmt_emit_indent ink
emit_indent-Writes st = Writes-either (not st.line_start) (Writes-refl st) (record {
  wrote = indent_loop-ink st.indent st.out ∙ sym (append-nil _);
  src_is = refl;
  newline_is = refl;
})

pub emit_newline-Writes : (st : FmtState) → IsBlank st → Writes [] st (fmt_emit_newline st)
unfolding fmt_emit_newline fmt_trim_trailing_spaces ink
emit_newline-Writes st h = record {
  wrote = no_ink _ st.newline h ∙ ap (◌++ []) (ink-trim st.out.bytes);
  src_is = refl;
  newline_is = refl;
}

pub newline_unless_start-Writes :
    (st : FmtState) → IsBlank st → Writes [] st (newline_unless_start st)
unfolding newline_unless_start
newline_unless_start-Writes st h = Writes-if (not st.line_start) (emit_newline-Writes st h)

pub emit_space-Writes : (st : FmtState) → Writes [] st (fmt_emit_space_if_needed st)
unfolding fmt_emit_space_if_needed ink
emit_space-Writes st = Writes-either st.line_start (Writes-refl st) (
    Writes-either (fmt_buf_last_is_space st.out) (Writes-refl st) (record {
      wrote = ap ink (bytes-append_char st.out b' ') ∙ ink-append st.out.bytes (codes " ");
      src_is = refl;
      newline_is = refl;
    }))

pub emit_blank_line-Writes :
    (st : FmtState) → IsBlank st → Writes [] st (fmt_emit_blank_line_if_needed st)
unfolding fmt_emit_blank_line_if_needed
emit_blank_line-Writes st h =
    let a = newline_unless_start st in
    let p = newline_unless_start-Writes st h in
    let q = Writes-if (ltb 0 (length a.out.bytes)) (emit_newline-Writes a (Writes-IsBlank p h)) in
    Writes-either (not st.pending_blank_line) (Writes-refl st)
      (Writes-trans p (Writes-behind q (Writes-keep refl refl refl)))

before_rbrace-Writes :
    (t : TokenType) (st : FmtState) → IsBlank st → Writes [] st (before_rbrace t st)
unfolding before_rbrace
before_rbrace-Writes t st h =
    Writes-if (t is TokenType.tok_rbrace)
      (Writes-trans (Writes-keep refl refl refl) (newline_unless_start-Writes _ h))

pub emit_before-Writes :
    (b : Bool) (t : Token) (st : FmtState) → IsBlank st → Writes [] st (emit_before b t st)
unfolding emit_before before_space
emit_before-Writes b t st h =
    let p1 = before_rbrace-Writes t.type st h in
    let s1 = before_rbrace t.type st in
    let p2 =
      Writes-trans p1
        (Writes-if (starts_line t.type) (newline_unless_start-Writes s1 (Writes-IsBlank p1 h))) in
    let s2 = if starts_line t.type then newline_unless_start s1 else s1 in
    let p3 = Writes-trans p2 (Writes-if b (newline_unless_start-Writes s2 (Writes-IsBlank p2 h))) in
    let s3 = if b then newline_unless_start s2 else s2 in
    let p4 = Writes-trans p3 (emit_blank_line-Writes s3 (Writes-IsBlank p3 h)) in
    let s4 = fmt_emit_blank_line_if_needed s3 in
    let p5 = Writes-trans p4 (Writes-if (fmt_need_space_before s4 t) (emit_space-Writes s4)) in
    Writes-trans p5 (emit_indent-Writes _)

emit_text-Writes : (t : Token) (st : FmtState) → Writes (token_text st.src t) st (emit_text t st)
unfolding emit_text
emit_text-Writes t st =
    Writes-behind (append_out-Writes st (token_text st.src t)) (Writes-keep refl refl refl)

emit_depths-Writes : (t : TokenType) (st : FmtState) → Writes [] st (emit_depths t st)
unfolding emit_depths
emit_depths-Writes t st = Writes-keep (ground arith) (ground arith) (ground arith)

emit_after-Writes :
    (t next : TokenType) (st : FmtState) → IsBlank st → Writes [] st (emit_after t next st)
unfolding emit_after
emit_after-Writes t next st h =
    let has = λ (u : TokenType). t is u in
    let binary = fmt_token_is_binary_operator t st.has_prev st.prev.type in
    let line = emit_newline-Writes st h in
    let same = Writes-refl st in
    let forced : Writes [] st (record st { force_space_before_next = true }) =
      Writes-keep refl refl refl in
    let deeper : Writes [] st (record st { indent = st.indent + 1 }) = Writes-keep refl refl refl in
    let last =
      Writes-either binary forced (
        Writes-either (fmt_token_is_ambiguous_operator t) (Writes-either binary forced same)
          same) in
    let colon =
      Writes-either (has TokenType.tok_colon) (Writes-either st.prev_was_case_label line forced)
        last in
    let comma = Writes-either (has TokenType.tok_comma) forced colon in
    let semi =
      Writes-either (has TokenType.tok_semi)
        (Writes-either (st.paren_depth == 0 && st.bracket_depth == 0) line forced) comma in
    let closing =
      not (next is TokenType.tok_semi)
      && not (next is TokenType.tok_comma)
      && not (next is TokenType.tok_eof) in
    let rbrace = Writes-either (has TokenType.tok_rbrace) (Writes-either closing line same) semi in
    Writes-either (has TokenType.tok_lbrace)
      (Writes-trans deeper (emit_newline-Writes (record st { indent = st.indent + 1 }) h)) rbrace

-- A token adds its own ink.
pub emit_token-Writes :
    (st : FmtState) (t next : Token)
    → IsBlank st
    → Writes (token_text st.src t) st (fmt_emit_token st t next)
unfolding fmt_emit_token
emit_token-Writes st t next h =
    let a = emit_before (fmt_token_is_block_brace st t) t st in
    let b = emit_text t a in
    let c = emit_depths t.type b in
    let p = emit_before-Writes (fmt_token_is_block_brace st t) t st h in
    let q = subst (λ s. Writes (token_text s t) a b) p.src_is (emit_text-Writes t a) in
    let r = Writes-behind (Writes-trans p q) (emit_depths-Writes t.type b) in
    let e = emit_after-Writes t.type next.type c (Writes-IsBlank r h) in
    Writes-behind (Writes-behind r e) (Writes-keep refl refl refl)

pub Writes-none : {a b : FmtState} → Writes [] a b → ink b.out.bytes ≡ ink a.out.bytes
unfolding ink
Writes-none p = p.wrote ∙ append-nil _
