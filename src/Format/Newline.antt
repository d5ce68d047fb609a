-- ===== src/Format/Newline.antt =====
-- A formatted source ends its last line (apps/kinal/src/kn_format.c, fmt_format_source).
use kinal.CString.{head0}
use kinal.Format.Buffer.{
  last_is, fmt_trim_trailing_spaces, fmt_buf_last_is_newline, fmt_buf_last_is_space,
}
use kinal.Format.Emit.{fmt_emit_token}
use kinal.Format.Gap.{fmt_process_gap, gap_loop, emit_comment, note_blank_line, space_unless_start}
use kinal.Format.Source.{
  fmt_format_source, fmt_finish, emit_loop, gap_to, fmt_initial, slice, next_token, bom_length,
  fmt_is_crlf,
}
use kinal.Format.Ink.Steps.{bytes-append, emit_token-Writes}
use kinal.Format.Spaces.{IsNewline, newline_blank, ends_newline}
use kinal.Lexer.Tokens.{is_eof, tokens_of}
use kinal.Format.State.{
  FmtState, append_out, fmt_emit_indent, fmt_emit_newline, newline_unless_start,
  fmt_emit_blank_line_if_needed, fmt_emit_space_if_needed,
}
use kinal.Lexer.Token.{Token}
use kinal.Prelude.{
  ℕ, ◌&&◌, ltb, leb, ◌==◌, length, zero, suc, Bool, true, false, not, if◌then◌else◌, List, [], ◌∷◌,
  Bytes, ◌≡◌, refl, sym, ap, subst, some, take, ◌+◌, ◌∙◌, inl, inr, Bool-cases,
}

-- From `a` to `b` the line end that the formatter writes stays.
record Keeps (a b : FmtState) : Type 0 where
  newline_is : b.newline ≡ a.newline

same : {a b : FmtState} → b.newline ≡ a.newline → Keeps a b
same e = record { newline_is = e }

Keeps-refl : (a : FmtState) → Keeps a a
Keeps-refl a = same refl

Keeps-trans : {a b c : FmtState} → Keeps a b → Keeps b c → Keeps a c
Keeps-trans p q = same (q.newline_is ∙ p.newline_is)

Keeps-if : {a x y : FmtState} (b : Bool) → Keeps a x → Keeps a y → Keeps a (if b then x else y)
Keeps-if true p q = p
Keeps-if false p q = q

indent-Keeps : (st : FmtState) → Keeps st (fmt_emit_indent st)
unfolding fmt_emit_indent
indent-Keeps st = Keeps-if (not st.line_start) (Keeps-refl st) (same refl)

newline-Keeps : (st : FmtState) → Keeps st (fmt_emit_newline st)
unfolding fmt_emit_newline
newline-Keeps st = same refl

newline_unless_start-Keeps : (st : FmtState) → Keeps st (newline_unless_start st)
unfolding newline_unless_start
newline_unless_start-Keeps st = Keeps-if (not st.line_start) (newline-Keeps st) (Keeps-refl st)

blank_line-Keeps : (st : FmtState) → Keeps st (fmt_emit_blank_line_if_needed st)
unfolding fmt_emit_blank_line_if_needed
blank_line-Keeps st =
    let a = newline_unless_start st in
    let p = newline_unless_start-Keeps st in
    let q = Keeps-if (ltb 0 (length a.out.bytes)) (newline-Keeps a) (Keeps-refl a) in
    Keeps-if (not st.pending_blank_line) (Keeps-refl st) (Keeps-trans (Keeps-trans p q) (same refl))

space-Keeps : (st : FmtState) → Keeps st (fmt_emit_space_if_needed st)
unfolding fmt_emit_space_if_needed
space-Keeps st =
    Keeps-if st.line_start (Keeps-refl st)
      (Keeps-if (fmt_buf_last_is_space st.out) (Keeps-refl st) (same refl))

note-Keeps : (k : ℕ) (st : FmtState) → Keeps st (note_blank_line k st)
unfolding note_blank_line
note-Keeps k st = Keeps-if (leb 2 k) (same refl) (Keeps-refl st)

comment-Keeps : (k : ℕ) (w : Bytes) (b : Bool) (st : FmtState) → Keeps st (emit_comment k w b st)
unfolding emit_comment space_unless_start
comment-Keeps k w b st =
    let n = note_blank_line k st in
    let a = fmt_emit_blank_line_if_needed n in
    let s = space_unless_start a in
    let i = append_out (fmt_emit_indent s) w in
    let p = Keeps-trans (note-Keeps k st) (blank_line-Keeps n) in
    let q : Keeps a s = Keeps-if (not a.line_start) (space-Keeps a) (Keeps-refl a) in
    let r : Keeps s i = Keeps-trans (indent-Keeps s) (same refl) in
    let all = Keeps-trans (Keeps-trans p q) r in Keeps-if b (Keeps-trans all (newline-Keeps i)) all

gap_loop-Keeps : (n : ℕ) (r : Bytes) (k : ℕ) (st : FmtState) → Keeps st (gap_loop n r k st)
unfolding gap_loop
gap_loop-Keeps zero r k st = note-Keeps k st
gap_loop-Keeps (suc n) [] k st = note-Keeps k st
gap_loop-Keeps (suc n) (c ∷ s) k st =
    let next = λ (r : Bytes) (j : ℕ). gap_loop-Keeps n r j st in
    Keeps-if (c == b'/' && head0 s == b'/')
      (Keeps-trans (comment-Keeps k _ true st) (gap_loop-Keeps n _ 0 _))
      (Keeps-if (c == b'/' && head0 s == b'*')
        (Keeps-trans (comment-Keeps k _ _ st) (gap_loop-Keeps n _ 0 _))
        (Keeps-if (c == b'\r') (next _ _) (Keeps-if (c == b'\n') (next _ _) (next _ _))))

gap_to-Keeps : (a b : ℕ) (st : FmtState) → Keeps st (gap_to a b st)
unfolding fmt_process_gap
gap_to-Keeps a b st =
    let gap = slice st.src a b in
    Keeps-if (ltb a b) (gap_loop-Keeps (length gap) gap 0 st) (Keeps-refl st)

emit_loop-Keeps :
    (ts : List Token) (st : FmtState) (cursor : ℕ)
    → IsNewline st.newline
    → Keeps st (emit_loop ts st cursor).0
unfolding emit_loop
emit_loop-Keeps [] st cursor n = Keeps-refl st
emit_loop-Keeps (t ∷ ts) st cursor n =
    let a = gap_to cursor t.start st in
    let p = gap_to-Keeps cursor t.start st in
    let next = next_token t ts in
    let n' : IsNewline a.newline = subst IsNewline (sym p.newline_is) n in
    let w = emit_token-Writes a t next (newline_blank a.newline n') in
    let q : Keeps a (fmt_emit_token a t next) = same w.newline_is in
    elim (Bool-cases (is_eof t)) [
      | inl e ↦ rw e p
      | inr e ↦ rw e (
          Keeps-trans (Keeps-trans p q) (
            emit_loop-Keeps ts (fmt_emit_token a t next) (t.start + t.length)
              (subst IsNewline (sym w.newline_is) n')))
    ]

append-last_newline :
    (c : FmtState)
    → IsNewline c.newline
    → last_is b'\n'
        (if not (fmt_buf_last_is_newline c.out) then append_out c c.newline else c).out.bytes
      ≡ true
unfolding fmt_buf_last_is_newline
append-last_newline c n = go (fmt_buf_last_is_newline c.out) refl
  where
    go :
        (b : Bool)
        → last_is b'\n' c.out.bytes ≡ b
        → last_is b'\n' (if not b then append_out c c.newline else c).out.bytes ≡ true
    go true e = e
    go false e =
        ap (last_is b'\n') (bytes-append c.out c.newline) ∙ ends_newline c.out.bytes c.newline n

finish-last_newline : (st : FmtState) → IsNewline st.newline → last_is b'\n' (fmt_finish st) ≡ true
unfolding fmt_finish fmt_buf_last_is_newline
finish-last_newline st n =
    let a = record st { out = fmt_trim_trailing_spaces st.out } in
    let b = if not (fmt_buf_last_is_newline a.out) then fmt_emit_newline a else a in
    let p : Keeps a b =
      Keeps-if (not (fmt_buf_last_is_newline a.out)) (newline-Keeps a) (Keeps-refl a) in
    let c = record b { out = fmt_trim_trailing_spaces b.out } in
    let n' : IsNewline c.newline = subst IsNewline (sym p.newline_is) n in append-last_newline c n'

initial-IsNewline : (src : Bytes) → IsNewline (fmt_initial src).newline
initial-IsNewline src = elim (Bool-cases (fmt_is_crlf src)) [
  | inl e ↦ inr (rw e refl)
  | inr e ↦ inl (rw e refl)
]

-- Every formatted text, whatever the source is, ends with a newline.
pub format-last_newline : (src : Bytes) → last_is b'\n' (fmt_format_source src) ≡ true
unfolding fmt_format_source
format-last_newline src =
    let cursor = bom_length src in
    let start = append_out (fmt_initial src) (take cursor src) in
    let loop = emit_loop (tokens_of (some src)) start cursor in
    let p = emit_loop-Keeps (tokens_of (some src)) start cursor (initial-IsNewline src) in
    let q = gap_to-Keeps loop.1 (length src) loop.0 in
    finish-last_newline _
      (subst IsNewline (sym (Keeps-trans p q).newline_is) (initial-IsNewline src))
