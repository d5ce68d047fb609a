-- ===== src/Format/Ink/Gaps/Splits.antt =====
-- How `fmt_process_gap` divides a gap: at the ends of lines and of block comments
-- (apps/kinal/src/kn_format.c). What a gap needs: each carriage return in it, or at its end, has a
-- newline behind it.
use kinal.CString.{head0, tail0}
use kinal.Format.Gap.{
  is_line_end, line_text, line_rest, skip_line_end, block_text, block_rest, note_blank_line,
  space_unless_start, emit_comment,
}
use kinal.Format.Ink.Steps.{
  Writes, Writes-trans, Writes-behind, Writes-keep, IsBlank, Writes-IsBlank, Writes-if,
  append_out-Writes, emit_indent-Writes, emit_newline-Writes, emit_space-Writes,
  emit_blank_line-Writes,
}
use kinal.Format.Ink.{ink, ink-append}
use kinal.Format.State.{FmtState, append_out, fmt_emit_indent, fmt_emit_blank_line_if_needed}
use kinal.Lexer.Trivia.Grammar.{has_close, IsTrivia}
use native.Mathlib.Nat.{le_refl}
use kinal.Prelude.{
  ℕ, ◌≤◌, Bool, false, not, [], ◌∷◌, ◌++◌, ◌≡◌, ◌≢◌, refl, sym, ap, subst, ◌∙◌, ◌⊎◌, inl, inr,
  arith, append_assoc, leb, ◌==◌, Bool-cases, Bytes, length, All,
}

-- Each carriage return is followed by a newline.
abbrev pub NoLoneReturn : Bytes → Type 0
NoLoneReturn [] = Unit
NoLoneReturn (c ∷ s) = (c ≡ b'\r' → head0 s ≡ b'\n') × NoLoneReturn s

pub emit_comment-Writes :
    (k : ℕ) (w : Bytes) (b : Bool) (st : FmtState)
    → IsBlank st
    → Writes w st (emit_comment k w b st)
unfolding emit_comment
emit_comment-Writes k w b st h =
    let s1 = note_blank_line k st in
    let p1 : Writes [] st s1 = Writes-if (leb 2 k) (Writes-keep refl refl refl) in
    let s2 = fmt_emit_blank_line_if_needed s1 in
    let p2 = Writes-trans p1 (emit_blank_line-Writes s1 (Writes-IsBlank p1 h)) in
    let s3 = space_unless_start s2 in
    let p3 = Writes-trans p2 (Writes-if (not s2.line_start) (emit_space-Writes s2)) in
    let s4 = fmt_emit_indent s3 in
    let p4 = Writes-trans p3 (emit_indent-Writes s3) in
    let p5 = Writes-trans p4 (append_out-Writes s4 w) in
    Writes-behind p5 (Writes-if b (emit_newline-Writes (append_out s4 w) (Writes-IsBlank p5 h)))

-- Trivia that begins with a space goes on behind it.
pub IsTrivia-tail : {r : Bytes} {c : ℕ} {w : Bytes} → IsTrivia r (c ∷ w) → c ≢ b'/' → IsTrivia r w
IsTrivia-tail (IsTrivia.space s t) h = t
IsTrivia-tail (IsTrivia.line b _ _ _ e) h = absurd (h (cc))
IsTrivia-tail (IsTrivia.block b _ _ e) h = absurd (h (cc))
IsTrivia-tail (IsTrivia.open_block b _ _ e) h = absurd (h (cc))

-- Behind a line comment: what follows its line end is trivia again, and with the comment's text it
-- has all the ink.
pub record LineSplit (r s : Bytes) : Type 0 where
  pub trivia : IsTrivia r (skip_line_end (line_rest s))
  pub returns : NoLoneReturn (skip_line_end (line_rest s) ++ r)
  pub shorter : length (skip_line_end (line_rest s)) ≤ length s
  pub all_ink : ink (line_text s) ++ ink (skip_line_end (line_rest s)) ≡ ink s

-- A carriage return ends the text; the newline behind it, if it is in the gap, is passed too.
LineSplit-return :
    (r b w : Bytes)
    → All (λ c. c ≢ b'\n') b
    → IsTrivia r w
    → head0 ((b ++ w) ++ r) ≡ b'\n'
    → NoLoneReturn ((b ++ w) ++ r)
    → LineSplit r (b'\r' ∷ (b ++ w))
unfolding is_line_end line_text line_rest skip_line_end ink
LineSplit-return r [] [] n t e z = record {
  trivia = t;
  returns = z;
  shorter = omega arith;
  all_ink = refl;
}
LineSplit-return r [] (x ∷ w) n t e z = rw e (record {
  trivia = IsTrivia-tail t (omega (arith, e));
  returns = z.1;
  shorter = omega arith;
  all_ink = refl;
})
LineSplit-return r (y ∷ b) w n t e z = absurd (n.0 e)

ink-cons : (c : ℕ) (s t : Bytes) → ink (c ∷ s) ++ ink t ≡ ink (c ∷ []) ++ (ink s ++ ink t)
ink-cons c s t =
    ap (◌++ ink t) (ink-append (c ∷ []) s) ∙ append_assoc (ink (c ∷ [])) (ink s) (ink t)

LineSplit-cons : {r s : Bytes} (c : ℕ) → is_line_end c ≡ false → LineSplit r s → LineSplit r (c ∷ s)
unfolding line_text line_rest ink
LineSplit-cons {r} {s} c e l =
    let text : line_text (c ∷ s) ≡ c ∷ line_text s = rw (e, line_text) in
    let behind : line_rest (c ∷ s) ≡ line_rest s = rw (e, line_rest) in
    record {
      trivia = rw (e, line_rest) l.trivia;
      returns = rw (e, line_rest) l.returns;
      shorter = rw (e, line_rest) (omega (arith, l.shorter));
      all_ink =
          ap (λ x. ink x ++ ink (skip_line_end (line_rest (c ∷ s)))) text
          ∙ ap (λ x. ink (c ∷ line_text s) ++ ink (skip_line_end x)) behind
          ∙ ink-cons c (line_text s) (skip_line_end (line_rest s))
          ∙ ap (λ x. ink (c ∷ []) ++ x) l.all_ink
          ∙ sym (ink-append (c ∷ []) s);
    }

pub line_split :
    (r b w : Bytes)
    → All (λ c. c ≢ b'\n') b
    → (head0 (w ++ r) ≡ b'\n') ⊎ (w ++ r ≡ [])
    → IsTrivia r w
    → NoLoneReturn ((b ++ w) ++ r)
    → LineSplit r (b ++ w)
unfolding is_line_end line_text line_rest skip_line_end ink
line_split r [] [] n e t z = record { trivia = t; returns = z; shorter = le_refl _; all_ink = refl }
line_split r [] (x ∷ w) n (inl e) t z = rw e (record {
  trivia = IsTrivia-tail t (omega (arith, e));
  returns = z.1;
  shorter = omega arith;
  all_ink = refl;
})
line_split r [] (x ∷ w) n (inr e) t z = absurd (cc)
line_split r (c ∷ b) w n e t z = elim (Bool-cases (c == b'\r')) [
  | inl q ↦
      let c_is : c ≡ b'\r' = ground arith in
      subst (λ x. LineSplit r (x ∷ (b ++ w))) (sym c_is)
        (LineSplit-return r b w n.1 t (z.0 c_is) z.1)
  | inr q ↦
      let other : is_line_end c ≡ false = ground (arith, n.0) in
      LineSplit-cons c other (line_split r b w n.1 e t z.1)
]

-- The body of a block comment, up to its end mark or the end of the gap.
pub block_split :
    (b w : Bytes)
    → has_close b ≡ false
    → (block_text (b ++ b'*' ∷ b'/' ∷ w) ≡ b ++ b'*' ∷ b'/' ∷ [])
      × (block_rest (b ++ b'*' ∷ b'/' ∷ w) ≡ w)
unfolding block_text block_rest
block_split [] w h = (refl, refl)
block_split (c ∷ []) w h = ground arith
block_split (c ∷ d ∷ b) w h = ground (arith, block_split (d ∷ b) w)

pub open_split : (b : Bytes) → has_close b ≡ false → (block_text b ≡ b) × (block_rest b ≡ [])
unfolding block_text block_rest
open_split [] h = (refl, refl)
open_split (c ∷ b) h = ground (arith, open_split b)

pub NoLoneReturn-drop : (s t : Bytes) → NoLoneReturn (s ++ t) → NoLoneReturn t
NoLoneReturn-drop [] t h = h
NoLoneReturn-drop (c ∷ s) t h = NoLoneReturn-drop s t h.1

NoLoneReturn-tail0 : (s t : Bytes) → NoLoneReturn (s ++ t) → NoLoneReturn (tail0 s ++ t)
NoLoneReturn-tail0 [] t h = h
NoLoneReturn-tail0 (c ∷ s) t h = h.1
