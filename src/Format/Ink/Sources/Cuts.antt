-- ===== src/Format/Ink/Sources/Cuts.antt =====
-- The pieces of a source that the formatter reads in turn (apps/kinal/src/kn_format.c,
-- fmt_format_source).
use kinal.Format.Ink.Gaps.{NoLoneReturn, process_gap-Writes, process_gap-no_slash}
use kinal.Format.Ink.Steps.{Writes, Writes-refl, IsBlank}
use kinal.Format.Source.{slice, gap_to}
use kinal.Format.State.{FmtState}
use kinal.Lexer.Trivia.Grammar.{IsTrivia}
use kinal.Prelude.{
  ℕ, zero, suc, ◌+◌, ◌-◌, ◌≤◌, ◌<◌, true, false, [], ◌∷◌, ◌++◌, ◌≡◌, ◌≢◌, refl, sym, ap, ◌∙◌, arith,
  ltb, Bytes, length, take, drop, take-length-append, drop-length-append, All,
}

drop-nil : (n : ℕ) → drop {A = ℕ} n [] ≡ []
drop-nil zero = refl
drop-nil (suc n) = refl

drop_add : (m n : ℕ) (s : Bytes) → drop (m + n) s ≡ drop n (drop m s)
drop_add zero n s = ap (λ (k : ℕ). drop k s) (omega arith)
drop_add (suc m) n [] = drop-nil (suc m + n) ∙ sym (drop-nil n)
drop_add (suc m) n (c ∷ s) =
    let e : suc m + n ≡ suc (m + n) = omega arith in
    ap (λ (k : ℕ). drop k (c ∷ s)) e ∙ drop_add m n s

-- What stands behind a text that stands at `p`.
pub behind :
    (s : Bytes) (p q : ℕ) (u v : Bytes) → drop p s ≡ u ++ v → q ≡ p + length u → drop q s ≡ v
behind s p q u v e h =
    ap (λ (k : ℕ). drop k s) h
    ∙ drop_add p (length u) s
    ∙ ap (drop (length u)) e
    ∙ drop-length-append u v

-- The text of that length there.
pub text_at : (t : Bytes) (n : ℕ) (u v : Bytes) → t ≡ u ++ v → n ≡ length u → take n t ≡ u
text_at t n u v e h = ap (λ (k : ℕ). take k t) h ∙ ap (take (length u)) e ∙ take-length-append u v

pub before : (a b : ℕ) → a < b → ltb a b ≡ true
before a b h = ground arith

pub not_before : (a b : ℕ) → b ≤ a → ltb a b ≡ false
not_before a b h = ground arith

pub gap_to-Writes :
    (p q : ℕ) (g y : Bytes) (st : FmtState)
    → drop p st.src ≡ g ++ y
    → q ≡ p + length g
    → IsTrivia y g
    → NoLoneReturn (g ++ y)
    → IsBlank st
    → Writes g st (gap_to p q st)
gap_to-Writes p q [] y st e h t z b = rw (not_before p q (omega arith)) (Writes-refl st)
gap_to-Writes p q (c ∷ g) y st e h t z b =
    let text : slice st.src p q ≡ c ∷ g = text_at _ (q - p) (c ∷ g) y e (omega (arith, h)) in
    rw (before p q (omega arith), text) (process_gap-Writes y (c ∷ g) st t z b)

-- A gap with no slash writes nothing.
pub gap_to-no_slash :
    (p q : ℕ) (g : Bytes) (st : FmtState)
    → drop p st.src ≡ g ++ []
    → q ≡ p + length g
    → All (λ c. c ≢ b'/') g
    → Writes [] st (gap_to p q st)
gap_to-no_slash p q [] st e h a = rw (not_before p q (omega arith)) (Writes-refl st)
gap_to-no_slash p q (c ∷ g) st e h a =
    let text : slice st.src p q ≡ c ∷ g = text_at _ (q - p) (c ∷ g) [] e (omega (arith, h)) in
    rw (before p q (omega arith), text) (process_gap-no_slash (c ∷ g) st a)
