-- ===== src/Format/Ink/Sources/Rounds.antt =====
-- What the loop of the formatter over the tokens of a source writes
-- (apps/kinal/src/kn_format.c, fmt_format_source).
use kinal.Format.Ink.Sources.Cuts.{behind, text_at, not_before, gap_to-Writes}
use kinal.CString.{NoNul, c_string_id}
use kinal.Format.Buffer.{fmt_buf_last_is_newline, fmt_trim_trailing_spaces}
use kinal.Format.Emit.{token_text, fmt_emit_token}
use kinal.Format.Ink.Gaps.{NoLoneReturn}
use kinal.Format.Ink.Steps.{
  Writes, Writes-trans, IsBlank, Writes-IsBlank, Writes-if, ink-trim, emit_newline-Writes,
  emit_token-Writes, bytes-append, Writes-none,
}
use kinal.Format.Ink.{ink, ink-append}
use kinal.Format.Source.{
  fmt_is_crlf, fmt_initial, next_token, gap_to, emit_loop, fmt_finish, bom_length,
}
use kinal.Format.State.{FmtState, append_out, fmt_emit_newline}
use kinal.Lexer.State.{has_bom}
use kinal.Lexer.Token.{Token}
use kinal.Lexer.Tokens.Layout.{Stops, Tokenised, last, more, bom}
use mathlib.Core.Path.{ap₂}
use kinal.Prelude.{
  ℕ, ◌+◌, ◌≤◌, ◌<◌, not, List, [], ◌∷◌, ◌++◌, ◌≡◌, refl, sym, ap, subst, ◌∙◌, ◌⊎◌, inl, inr, arith,
  append_assoc, if◌then◌else◌, Bool-cases, Bytes, length, drop, length-append,
}

abbrev pub last_length : List Token → ℕ
last_length [] = 0
last_length (t ∷ []) = t.length
last_length (t ∷ u ∷ ts) = last_length (u ∷ ts)

last_length-cons :
    {p ln co : ℕ} {x : Bytes} {ts : List Token} (t : Token)
    → Tokenised p ln co x ts
    → last_length (t ∷ ts) ≡ last_length ts
last_length-cons t (last _ _ _ _ _ _ _ _) = refl
last_length-cons t (more _ _ _ _ _ _ _ _ _ _ _) = refl

abbrev pub last_start : List Token → ℕ
last_start [] = 0
last_start (t ∷ []) = t.start
last_start (t ∷ u ∷ ts) = last_start (u ∷ ts)

last_start-cons :
    {p ln co : ℕ} {x : Bytes} {ts : List Token} (t : Token)
    → Tokenised p ln co x ts
    → last_start (t ∷ ts) ≡ last_start ts
last_start-cons t (last _ _ _ _ _ _ _ _) = refl
last_start-cons t (more _ _ _ _ _ _ _ _ _ _ _) = refl

Stops-unread :
    (t : Token) (w r : Bytes) → t.length ≡ length w → Stops w r → (w ++ r ≡ []) ⊎ (0 < t.length)
Stops-unread t w r l (inl (w_is, r_is)) = inl (ap₂ (λ a b. a ++ b) w_is r_is)
Stops-unread t w r l (inr (c, w_is, _)) = inr (omega (arith, ap length w_is))

pub NoLoneReturn-behind : (u v : Bytes) → NoLoneReturn (u ++ v) → NoLoneReturn v
NoLoneReturn-behind [] v h = h
NoLoneReturn-behind (c ∷ u) v h = NoLoneReturn-behind u v h.1

-- What the loop makes of the text `x` at `p`: it writes the ink of the text up to where the last token
-- begins, and ends there, at the end of the text or at a byte that begins no token.
pub record Emits (x : Bytes) (p : ℕ) (ts : List Token) (st : FmtState) (r : FmtState × ℕ)
    : Type 0 where
  pub read : Bytes
  pub unread : Bytes
  pub splits : x ≡ read ++ unread
  pub writes : Writes read st r.0
  pub end_is : r.1 ≡ p + length read
  pub unread_is : (unread ≡ []) ⊎ (0 < last_length ts)
  pub start_is : last_start ts ≡ r.1

pub emit_loop-Emits :
    {p ln co : ℕ} {x : Bytes} {ts : List Token} (st : FmtState)
    → Tokenised p ln co x ts
    → drop p st.src ≡ x
    → NoLoneReturn x
    → IsBlank st
    → Emits x p ts st (emit_loop ts st p)
unfolding emit_loop
emit_loop-Emits {p} st (last {t = t} gap w r e l g q stops) at z h = rw e (record {
  read = gap;
  unread = w ++ r;
  splits = q;
  writes = gap_to-Writes p t.start gap (w ++ r) st (at ∙ q) l.start_is g (subst NoLoneReturn q z) h;
  end_is = l.start_is;
  unread_is = Stops-unread t w r l.length_is stops;
  start_is = refl;
})
emit_loop-Emits {p} st (more {q = k} {y = y} {t = t} {ts = ts} gap w e l g q ne k_is ln co later) at
      z h =
    let z' = subst NoLoneReturn q z in
    let a = gap_to p t.start st in
    let p1 = gap_to-Writes p t.start gap (w ++ y) st (at ∙ q) l.start_is g z' h in
    let at1 = behind st.src p t.start gap (w ++ y) (at ∙ q) l.start_is in
    let src_a : a.src ≡ st.src = p1.src_is in
    let text : token_text a.src t ≡ w =
      ap (λ s. token_text s t) src_a ∙ text_at _ t.length w y at1 l.length_is in
    let b = fmt_emit_token a t (next_token t ts) in
    let p2 = Writes-trans p1 (
      subst (λ v. Writes v a b) text
        (emit_token-Writes a t (next_token t ts) (Writes-IsBlank p1 h))) in
    let at2 : drop k b.src ≡ y =
      ap (drop k) p2.src_is ∙ behind st.src t.start k w y at1 (omega (arith, k_is, l.start_is)) in
    let stop : t.start + t.length ≡ k = omega (arith, k_is, l.start_is, l.length_is) in
    let m =
      emit_loop-Emits b later at2 (NoLoneReturn-behind w y (NoLoneReturn-behind gap (w ++ y) z'))
        (Writes-IsBlank p2 h) in
    rw (e, stop)
      (record {
        read = (gap ++ w) ++ m.read;
        unread = m.unread;
        splits =
            q
            ∙ sym (append_assoc gap w y)
            ∙ ap ((gap ++ w) ++◌) m.splits
            ∙ sym (append_assoc (gap ++ w) m.read m.unread);
        writes = Writes-trans p2 m.writes;
        end_is =
            m.end_is ∙ omega (arith, k_is, length-append (gap ++ w) m.read, length-append gap w);
        unread_is =
            subst (λ n. (m.unread ≡ []) ⊎ (0 < n)) (sym (last_length-cons t later)) m.unread_is;
        start_is = last_start-cons t later ∙ m.start_is;
      })

-- The end of the function adds white space at most.
pub finish-ink : (st : FmtState) → IsBlank st → ink (fmt_finish st) ≡ ink st.out.bytes
unfolding fmt_finish fmt_trim_trailing_spaces
finish-ink st h =
    let a = record st { out = fmt_trim_trailing_spaces st.out } in
    let b = if not (fmt_buf_last_is_newline a.out) then fmt_emit_newline a else a in
    let p = Writes-if (not (fmt_buf_last_is_newline a.out)) (emit_newline-Writes a h) in
    let c = record b { out = fmt_trim_trailing_spaces b.out } in
    let hc : IsBlank c = Writes-IsBlank p h in
    let q = Writes-if (not (fmt_buf_last_is_newline c.out)) (newline-Writes c hc) in
    Writes-none q ∙ ink-trim b.out.bytes ∙ Writes-none p ∙ ink-trim st.out.bytes
  where
    newline-Writes : (c : FmtState) → IsBlank c → Writes [] c (append_out c c.newline)
    newline-Writes c h = record {
      wrote =
          ap ink (bytes-append c.out c.newline)
          ∙ ink-append _ c.newline
          ∙ ap (ink c.out.bytes ++◌) (h ∙ unfold ink in refl);
      src_is = refl;
      newline_is = refl;
    }

pub bom-bom_length : (s : Bytes) → NoNul s → bom s ≡ bom_length s
unfolding bom bom_length
bom-bom_length s h = ap (λ t. if has_bom s (length t) then 3 else 0) (c_string_id s h)

pub bom_length-le : (s : Bytes) → bom_length s ≤ length s
unfolding bom_length has_bom
bom_length-le s = ground arith

-- A gap from the end of the source is none.
pub gap_to_end : (a b : ℕ) (st : FmtState) → a ≡ b → gap_to a b st ≡ st
gap_to_end a b st e = rw (not_before a b (omega arith))

pub initial-IsBlank : (src : Bytes) → IsBlank (fmt_initial src)
unfolding ink
initial-IsBlank src = elim (Bool-cases (fmt_is_crlf src)) [ inl e ↦ rw e | inr e ↦ rw e ]
