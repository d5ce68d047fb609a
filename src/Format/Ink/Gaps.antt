-- ===== src/Format/Ink/Gaps.antt =====
-- `fmt_process_gap` keeps the ink of trivia. What a gap needs: each carriage return in it, or at its
-- end, has a newline behind it.
pub mod Splits
pub use Splits.{NoLoneReturn, emit_comment-Writes}
use kinal.Format.Ink.Gaps.Splits.{
  IsTrivia-tail, LineSplit, line_split, block_split, open_split, NoLoneReturn-drop,
}
use kinal.CString.{head0, tail0}
use kinal.Format.Gap.{
  is_line_end, line_text, line_rest, skip_line_end, block_text, block_rest, note_blank_line,
  space_unless_start, emit_comment, gap_loop, fmt_process_gap,
}
use kinal.Format.Ink.Steps.{
  Writes, Writes-trans, Writes-behind, Writes-keep, IsBlank, Writes-IsBlank, Writes-if,
  Writes-either, append_out-Writes, emit_indent-Writes, emit_newline-Writes, emit_space-Writes,
  emit_blank_line-Writes,
}
use kinal.Format.Ink.{ink, ink-append}
use kinal.Format.State.{FmtState, append_out, fmt_emit_indent, fmt_emit_blank_line_if_needed}
use kinal.Lexer.Trivia.Grammar.{has_close, IsTrivia}
use kinal.Lexer.Trivia.{is_space}
use native.Mathlib.Nat.{le_refl}
use kinal.Prelude.{
  ℕ, zero, suc, ◌+◌, ◌≤◌, Bool, true, false, not, [], ◌∷◌, ◌++◌, ◌≡◌, ◌≢◌, refl, sym, ap, subst,
  ◌∙◌, ◌⊎◌, inl, inr, arith, append-nil, append_assoc, leb, ◌==◌, if◌then◌else◌, Bool-cases, Bytes,
  length, length-append, All,
}

note-Writes : (k : ℕ) (st : FmtState) → Writes [] st (note_blank_line k st)
unfolding note_blank_line
note-Writes k st = Writes-if (leb 2 k) (Writes-keep refl refl refl)

-- What the rounds of the loop on a gap write, by the rounds that are left.
abbrev Rounds : ℕ → Bytes → Type 0
Rounds n r =
    (g : Bytes) (k : ℕ) (st : FmtState)
    → length g ≤ n
    → IsTrivia r g
    → NoLoneReturn (g ++ r)
    → IsBlank st
    → Writes g st (gap_loop n g k st)

Writes-ink : {v w : Bytes} {a b : FmtState} → ink v ≡ ink w → Writes v a b → Writes w a b
Writes-ink {a = a} e p = record {
  wrote = p.wrote ∙ ap (ink a.out.bytes ++◌) e;
  src_is = p.src_is;
  newline_is = p.newline_is;
}

-- A round on a comment, by what is left of the gap behind it.
comment_round :
    (n : ℕ) (r v g w : Bytes) (k : ℕ) (b : Bool) (st : FmtState)
    → Rounds n r
    → length g ≤ n
    → IsTrivia r g
    → NoLoneReturn (g ++ r)
    → IsBlank st
    → ink (v ++ g) ≡ ink w
    → Writes w st (gap_loop n g 0 (emit_comment k v b st))
comment_round n r v g w k b st more f t z h e =
    let p = emit_comment-Writes k v b st h in
    Writes-ink e (Writes-trans p (more g 0 (emit_comment k v b st) f t z (Writes-IsBlank p h)))

-- Two bytes in front of texts of the same ink.
ink_front :
    (x y : ℕ) (u v w : Bytes) → ink u ++ ink v ≡ ink w → ink ((x ∷ y ∷ u) ++ v) ≡ ink (x ∷ y ∷ w)
ink_front x y u v w e =
    ink-append (x ∷ y ∷ []) (u ++ v)
    ∙ ap (ink (x ∷ y ∷ []) ++◌) (ink-append u v ∙ e)
    ∙ sym (ink-append (x ∷ y ∷ []) w)

line_round :
    (n : ℕ) (r s : Bytes) (k : ℕ) (st : FmtState)
    → Rounds n r
    → length s ≤ n
    → LineSplit r s
    → IsBlank st
    → Writes (b'/' ∷ b'/' ∷ s) st (gap_loop (suc n) (b'/' ∷ b'/' ∷ s) k st)
unfolding gap_loop
line_round n r s k st more f l h =
    comment_round n r _ _ _ k true st more (omega (arith, l.shorter)) l.trivia l.returns h
      (ink_front b'/' b'/' (line_text s) (skip_line_end (line_rest s)) s l.all_ink)

block_round :
    (n : ℕ) (r s g : Bytes) (k : ℕ) (st : FmtState)
    → Rounds n r
    → length s ≤ n
    → block_rest s ≡ g
    → s ≡ block_text s ++ g
    → IsTrivia r g
    → NoLoneReturn (s ++ r)
    → IsBlank st
    → Writes (b'/' ∷ b'*' ∷ s) st (gap_loop (suc n) (b'/' ∷ b'*' ∷ s) k st)
unfolding gap_loop
block_round n r s g k st more f e q t z h =
    let size : length g ≤ n = omega (arith, f, ap length q, length-append (block_text s) g) in
    let returns : NoLoneReturn (g ++ r) =
      NoLoneReturn-drop (block_text s) (g ++ r)
        (subst NoLoneReturn (ap (◌++ r) q ∙ append_assoc (block_text s) g r) z) in
    rw e (
      comment_round n r _ g _ k _ st more size t returns h
        (ap (λ x. ink (b'/' ∷ b'*' ∷ x)) (sym q)))

-- Behind a carriage return the newline is passed too.
return_round :
    (n : ℕ) (r s : Bytes) (k : ℕ) (st : FmtState)
    → Rounds n r
    → length s ≤ n
    → IsTrivia r s
    → NoLoneReturn (s ++ r)
    → IsBlank st
    → Writes s st (gap_loop n (if head0 s == b'\n' then tail0 s else s) k st)
return_round n r [] k st more f t z h = more [] k st f t z h
return_round n r (c ∷ s) k st more f t z h = elim (Bool-cases (c == b'\n')) [
  | inl q ↦ rw q (
      Writes-ink {v = s} (unfold ink in ground arith)
        (more s k st (omega arith) (IsTrivia-tail t (ground arith)) z.1 h))
  | inr q ↦ rw q (more (c ∷ s) k st f t z h)
]

-- A round on a space, by the byte.
space_round :
    (n : ℕ) (r : Bytes) (c : ℕ) (s : Bytes) (k : ℕ) (st : FmtState)
    → Rounds n r
    → length s ≤ n
    → is_space c ≡ true
    → IsTrivia r s
    → NoLoneReturn (s ++ r)
    → IsBlank st
    → Writes s st (gap_loop (suc n) (c ∷ s) k st)
unfolding gap_loop is_space
space_round n r c s k st more f x t z h =
    let no_slash : (c == b'/') ≡ false = ground arith in
    elim (Bool-cases (c == b'\r')) [
      | inl q ↦ rw (no_slash, q) (return_round n r s (k + 1) st more f t z h)
      | inr q ↦
          rw (no_slash, q)
            (Writes-either (c == b'\n') (more s (k + 1) st f t z h) (more s k st f t z h))
    ]

gap_loop-Writes : (n : ℕ) (r : Bytes) → Rounds n r
gap_loop-Writes zero r [] k st f t z h = unfold gap_loop in note-Writes k st
gap_loop-Writes zero r (c ∷ s) k st f t z h = absurd (omega arith)
gap_loop-Writes (suc n) r [] k st f t z h = unfold gap_loop in note-Writes k st
gap_loop-Writes (suc n) r (c ∷ s) k st f (IsTrivia.space x t) z h =
    Writes-ink {v = s} (unfold ink is_space in ground arith)
      (space_round n r c s k st (gap_loop-Writes n r) (omega arith) x t z.1 h)
gap_loop-Writes (suc n) r (c ∷ s) k st f (IsTrivia.line {w = w} b a e t q) z h =
    subst (λ g. Writes g st (gap_loop (suc n) g k st)) (sym q)
      (line_round n r (b ++ w) k st (gap_loop-Writes n r) (omega (arith, ap length q))
        (line_split r b w a e t (subst (λ g. NoLoneReturn (g ++ r)) q z).1.1) h)
gap_loop-Writes (suc n) r (c ∷ s) k st f (IsTrivia.block {w = w} b a t q) z h =
    let (text, behind) = block_split b w a in
    subst (λ g. Writes g st (gap_loop (suc n) g k st)) (sym q)
      (block_round n r (b ++ b'*' ∷ b'/' ∷ w) w k st (gap_loop-Writes n r)
        (omega (arith, ap length q)) behind
        (sym (append_assoc b (b'*' ∷ b'/' ∷ []) w) ∙ ap (◌++ w) (sym text)) t
        (subst (λ g. NoLoneReturn (g ++ r)) q z).1.1 h)
gap_loop-Writes (suc n) r (c ∷ s) k st f (IsTrivia.open_block b a e q) z h =
    let (text, behind) = open_split b a in
    subst (λ g. Writes g st (gap_loop (suc n) g k st)) (sym q)
      (block_round n r b [] k st (gap_loop-Writes n r) (omega (arith, ap length q)) behind
        (sym (append-nil b) ∙ ap (◌++ []) (sym text)) IsTrivia.nothing
        (subst (λ g. NoLoneReturn (g ++ r)) q z).1.1 h)

pub process_gap-Writes :
    (r g : Bytes) (st : FmtState)
    → IsTrivia r g
    → NoLoneReturn (g ++ r)
    → IsBlank st
    → Writes g st (fmt_process_gap st g)
unfolding fmt_process_gap
process_gap-Writes r g st t z h = gap_loop-Writes (length g) r g 0 st (le_refl _) t z h

length-after_return : (s : Bytes) → length (if head0 s == b'\n' then tail0 s else s) ≤ length s
length-after_return [] = omega arith
length-after_return (c ∷ s) = ground arith

after_return-All :
    (s : Bytes)
    → All (λ c. c ≢ b'/') s
    → All (λ c. c ≢ b'/') (if head0 s == b'\n' then tail0 s else s)
after_return-All [] a = tt
after_return-All (c ∷ s) a = elim (Bool-cases (c == b'\n')) [ inl e ↦ rw e a.1 | inr e ↦ rw e a ]

no_slash-Writes :
    (n : ℕ) (g : Bytes) (k : ℕ) (st : FmtState)
    → length g ≤ n
    → All (λ c. c ≢ b'/') g
    → Writes [] st (gap_loop n g k st)
unfolding gap_loop
no_slash-Writes zero g k st f a = note-Writes k st
no_slash-Writes (suc n) [] k st f a = note-Writes k st
no_slash-Writes (suc n) (c ∷ s) k st f a =
    let no_slash : (c == b'/') ≡ false = ground (arith, a.0) in
    rw no_slash (
      Writes-either (c == b'\r')
        (no_slash-Writes n (if head0 s == b'\n' then tail0 s else s) (k + 1) st
          (omega (arith, length-after_return s)) (after_return-All s a.1))
        (Writes-either (c == b'\n') (no_slash-Writes n s (k + 1) st (omega arith) a.1)
          (no_slash-Writes n s k st (omega arith) a.1)))

-- A gap with no slash in it has no comment, and writes nothing.
pub process_gap-no_slash :
    (g : Bytes) (st : FmtState) → All (λ c. c ≢ b'/') g → Writes [] st (fmt_process_gap st g)
unfolding fmt_process_gap
process_gap-no_slash g st a = no_slash-Writes (length g) g 0 st (le_refl _) a
