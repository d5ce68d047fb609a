-- ===== src/Source/Lines.antt =====
-- The table of lines (apps/kinal/src/kn_source.c, kn_source_init), against the lines of a text.
use kinal.Prelude.{
  ℕ, zero, suc, ◌+◌, ◌≤◌, ◌<◌, true, false, if◌then◌else◌, [], ◌∷◌, ◌++◌, Bytes, length, get_or,
  ◌==◌, All, ==_iff, ◌≡◌, ◌≢◌, refl, sym, ap, ◌∙◌, arith, Bool-cases, inl, inr, ◌⊎◌,
}
use kinal.Source.{count_newlines, offsets_loop}

-- The line of a text with a number, from 0, without its newline; empty if there is none.
unfoldable pub line : Bytes → ℕ → Bytes
line [] k = []
line (c ∷ s) zero = let rest = line s zero in if c == b'\n' then [] else c ∷ rest
line (c ∷ s) (suc k) =
    let next = line s k in let same = line s (suc k) in if c == b'\n' then next else same

-- Where the table has the line `k` of `s`, which begins at the offset `i` of the text: `before`
-- stands in front of it, and a newline or the end of the text behind it.
pub record Placed (i : ℕ) (s : Bytes) (k : ℕ) : Type 0 where
  pub before : Bytes
  pub behind : Bytes
  pub splits : s ≡ before ++ (line s k ++ behind)
  pub first : k ≡ 0 → before ≡ []
  pub start_is : get_or (i ∷ offsets_loop (count_newlines s) i s) k 0 ≡ i + length before
  pub one_line : All (λ c. c ≢ b'\n') (line s k)
  pub ends :
      (count_newlines s ≤ k × behind ≡ [])
      ⊎ (k < count_newlines s
          × (tail : Bytes) × behind ≡ b'\n' ∷ tail
          × get_or (offsets_loop (count_newlines s) i s) k 0
            ≡ i + length before + length (line s k) + 1)

module _ (c : ℕ) (s : Bytes) (e : (c == b'\n') ≡ true) where
  count_newline : count_newlines (c ∷ s) ≡ suc (count_newlines s)
  unfolding count_newlines
  count_newline = rw e (omega arith)

  offsets_newline :
      (room i : ℕ) → offsets_loop (suc room) i (c ∷ s) ≡ (i + 1) ∷ offsets_loop room (i + 1) s
  unfolding offsets_loop
  offsets_newline room i = rw (e, offsets_loop) refl

  line_newline : line (c ∷ s) 0 ≡ []
  unfolding line
  line_newline = rw e refl

  line_behind : (k : ℕ) → line (c ∷ s) (suc k) ≡ line s k
  unfolding line
  line_behind k = rw e refl

offsets_none : (i : ℕ) (s : Bytes) → offsets_loop zero i s ≡ []
unfolding offsets_loop
offsets_none i [] = refl
offsets_none i (c ∷ s) = refl

module _ (c : ℕ) (s : Bytes) (n : (c == b'\n') ≡ false) where
  count_other : count_newlines (c ∷ s) ≡ count_newlines s
  unfolding count_newlines
  count_other = rw n (omega arith)

  offsets_other : (room i : ℕ) → offsets_loop room i (c ∷ s) ≡ offsets_loop room (i + 1) s
  unfolding offsets_loop
  offsets_other zero i = sym (offsets_none (i + 1) s)
  offsets_other (suc room) i = rw (n, offsets_loop) refl

  line_first : line (c ∷ s) 0 ≡ c ∷ line s 0
  unfolding line
  line_first = rw n refl

  line_same : (k : ℕ) → line (c ∷ s) (suc k) ≡ line s (suc k)
  unfolding line
  line_same k = rw n refl

Placed-end : (i k : ℕ) → k ≤ count_newlines [] → Placed i [] k
unfolding line count_newlines offsets_loop
Placed-end i zero h = record {
  before = [];
  behind = [];
  splits = refl;
  first = λ e. refl;
  start_is = omega arith;
  one_line = tt;
  ends = inl (omega arith, refl);
}
Placed-end i (suc k) h = absurd (omega (arith, h))

-- The first line of a text that begins with a newline, and of one that does not.
Placed-empty : (i c : ℕ) (s : Bytes) → (c == b'\n') ≡ true → Placed i (c ∷ s) 0
Placed-empty i c s e = record {
  before = [];
  behind = c ∷ s;
  splits = rw (line_newline c s e) refl;
  first = λ z. refl;
  start_is = omega arith;
  one_line = rw (line_newline c s e) tt;
  ends =
      rw (count_newline c s e, line_newline c s e, offsets_newline c s e)
        (inr (omega arith, s, ap (λ x. x ∷ s) ((==_iff c b'\n').0 e), omega arith));
}

Placed-longer :
    (i c : ℕ) (s : Bytes) → (c == b'\n') ≡ false → Placed (i + 1) s 0 → Placed i (c ∷ s) 0
Placed-longer i c s n r =
    let none_before = ap (λ b. b ++ (line s 0 ++ r.behind)) (r.first refl) in
    let size = ap length (r.first refl) in
    record {
      before = [];
      behind = r.behind;
      splits = rw (line_first c s n) (ap (c ∷◌) (r.splits ∙ none_before));
      first = λ e. refl;
      start_is = omega arith;
      one_line = rw (line_first c s n) (ground arith, r.one_line);
      ends =
          rw (count_other c s n, line_first c s n, offsets_other c s n)
            (elim r.ends [
              | inl (p, q) ↦ inl (p, q)
              | inr (p, t, q, z) ↦ inr (p, t, q, omega (arith, z, size))
            ]);
    }

-- A line behind a newline, and one behind another byte.
Placed-next :
    (i c : ℕ) (s : Bytes) (k : ℕ)
    → (c == b'\n') ≡ true
    → Placed (i + 1) s k
    → Placed i (c ∷ s) (suc k)
Placed-next i c s k e r = record {
  before = c ∷ r.before;
  behind = r.behind;
  splits = rw (line_behind c s e) (ap (c ∷◌) r.splits);
  first = λ z. absurd (omega (arith, z));
  start_is = rw (count_newline c s e, offsets_newline c s e) (omega (arith, r.start_is));
  one_line = rw (line_behind c s e) r.one_line;
  ends =
      rw (count_newline c s e, line_behind c s e, offsets_newline c s e)
        (elim r.ends [
          | inl (p, q) ↦ inl (omega (arith, p), q)
          | inr (p, t, q, z) ↦ inr (omega (arith, p), t, q, omega (arith, z))
        ]);
}

Placed-shifted :
    (i c : ℕ) (s : Bytes) (k : ℕ)
    → (c == b'\n') ≡ false
    → Placed (i + 1) s (suc k)
    → Placed i (c ∷ s) (suc k)
Placed-shifted i c s k n r = record {
  before = c ∷ r.before;
  behind = r.behind;
  splits = rw (line_same c s n) (ap (c ∷◌) r.splits);
  first = λ z. absurd (omega (arith, z));
  start_is = rw (count_other c s n, offsets_other c s n) (omega (arith, r.start_is));
  one_line = rw (line_same c s n) r.one_line;
  ends =
      rw (count_other c s n, line_same c s n, offsets_other c s n)
        (elim r.ends [
          | inl (p, q) ↦ inl (p, q)
          | inr (p, t, q, z) ↦ inr (p, t, q, omega (arith, z))
        ]);
}

pub placed : (i : ℕ) (s : Bytes) (k : ℕ) → k ≤ count_newlines s → Placed i s k
placed i [] k h = Placed-end i k h
placed i (c ∷ s) zero h = elim (Bool-cases (c == b'\n')) [
  | inl e ↦ Placed-empty i c s e
  | inr n ↦ Placed-longer i c s n (placed (i + 1) s zero (omega arith))
]
placed i (c ∷ s) (suc k) h = elim (Bool-cases (c == b'\n')) [
  | inl e ↦ Placed-next i c s k e (placed (i + 1) s k (omega (arith, h, count_newline c s e)))
  | inr n ↦
      Placed-shifted i c s k n (placed (i + 1) s (suc k) (omega (arith, h, count_other c s n)))
]
