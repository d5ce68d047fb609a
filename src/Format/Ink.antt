-- ===== src/Format/Ink.antt =====
-- What the formatter may not change: the bytes of a text that are not white space, its ink.
pub mod Steps
pub mod Gaps
pub mod Sources
use kinal.Prelude.{
  ℕ, Bool, true, false, ◌||◌, [], ◌∷◌, ◌++◌, ◌==◌, if◌then◌else◌, ◌≡◌, refl, arith, Bytes,
}

abbrev pub is_white : ℕ → Bool
is_white c = c == b' ' || c == b'\t' || c == b'\r' || c == b'\n'

unfoldable pub ink : Bytes → Bytes
ink [] = []
ink (c ∷ s) = if is_white c then ink s else c ∷ ink s

pub ink-append : (s t : Bytes) → ink (s ++ t) ≡ ink s ++ ink t
unfolding ink
ink-append [] t = refl
ink-append (c ∷ s) t = ground (arith, ink-append s t)
