-- ===== src/Lexer/Scan/Chars/Walks.antt =====
-- What the loop of `lex_char` passes, and how many values it counts
-- (apps/kinal/src/kn_lexer.c, lex_next).
use kinal.Lexer.Moves.{
  IsValid, Consumes, Consumes-refl, Consumes-trans, lex_advance-Consumes, left-lex_advance,
  left-Consumes, one_Consumes,
}
use kinal.Lexer.Scan.{is_eol, is_char_escape, CharScan, char_loop}
use kinal.Lexer.State.{Lexer, lex_advance, left}
use native.Mathlib.Nat.{le_refl}
use kinal.Prelude.{
  ℕ, zero, suc, ◌+◌, ◌≤◌, Bool, false, ◌&&◌, ◌||◌, [], ◌∷◌, ◌++◌, ◌≡◌, ◌≢◌, refl, ap, inl, inr,
  arith, ◌==◌, Bool-cases, Bytes,
}

-- What the loop passes, and its counter never falls.
pub record Walk (s r : CharScan) : Type 0 where
  pub word : Bytes
  pub moves : Consumes s.at word r.at
  pub mono : s.value_count ≤ r.value_count

Walk-cons :
    {s r : CharScan} {k : CharScan} {w : Bytes}
    → Consumes s.at w k.at
    → s.value_count ≤ k.value_count
    → Walk k r
    → Walk s r
Walk-cons {w = w} p h x = record {
  word = w ++ x.word;
  moves = Consumes-trans p x.moves;
  mono = omega (arith, x.mono);
}

abbrev pub ends_scan : Lexer → Bool
ends_scan l = l.ch == 0 || is_eol l.ch

abbrev pub next_plain : CharScan → CharScan
next_plain s = record s { at = lex_advance s.at; value_count = s.value_count + 1 }

abbrev pub next_escaped : CharScan → CharScan
next_escaped s =
    let e = lex_advance s.at in
    record s {
      at = lex_advance e;
      value_count = s.value_count + 1;
      valid = s.valid && is_char_escape e.ch;
    }

pub char_loop-Walk : (n : ℕ) (s : CharScan) → IsValid s.at → left s.at ≤ n → Walk s (char_loop n s)
unfolding char_loop
char_loop-Walk zero s v f = record { word = []; moves = Consumes-refl v; mono = le_refl _ }
char_loop-Walk (suc n) s v f = elim (Bool-cases (ends_scan s.at)) [
  | inl z ↦ rw z (record { word = []; moves = Consumes-refl v; mono = le_refl _ })
  | inr nz ↦
      let h : s.at.ch ≢ 0 = ground arith in
      let step = lex_advance-Consumes v h in
      elim (Bool-cases (s.at.ch == b'\'')) [
        | inl q ↦ rw (nz, q) (record { word = _; moves = step; mono = le_refl _ })
        | inr nq ↦ elim (Bool-cases (s.at.ch == b'\\')) [
          | inl e ↦ elim (Bool-cases (ends_scan (lex_advance s.at))) [
            | inl z ↦ rw (nz, nq, e, z) (record { word = _; moves = step; mono = omega arith })
            | inr nz' ↦
                let h' : (lex_advance s.at).ch ≢ 0 = ground arith in
                let two = Consumes-trans step (lex_advance-Consumes step.valid h') in
                rw (nz, nq, e, nz')
                  (Walk-cons {k = next_escaped s} two (omega arith) (
                    char_loop-Walk n (next_escaped s) two.valid
                      (omega (arith, left-Consumes v two))))
          ]
          | inr ne ↦
              rw (nz, nq, ne)
                (Walk-cons {k = next_plain s} step (omega arith)
                  (char_loop-Walk n (next_plain s) step.valid (left-lex_advance v h f)))
        ]
      ]
]

-- What a round on a value does to `s`, and what the next round gives.
pub data Counts (n : ℕ) (s r : CharScan) : Type 0 where
  unfinished :
      s.at.ch ≡ b'\\'
      → Consumes s.at (b'\\' ∷ []) (lex_advance s.at)
      → r ≡ next_plain s
      → Counts n s r
  escaped :
      (e : ℕ)
      → Consumes s.at (b'\\' ∷ e ∷ []) (next_escaped s).at
      → (lex_advance s.at).ch ≡ e
      → r ≡ char_loop n (next_escaped s)
      → Counts n s r
  plain :
      s.at.ch ≢ b'\\'
      → Consumes s.at (s.at.ch ∷ []) (next_plain s).at
      → r ≡ char_loop n (next_plain s)
      → Counts n s r

pub char_loop-Counts :
    (n : ℕ) (s : CharScan)
    → IsValid s.at
    → ends_scan s.at ≡ false
    → (s.at.ch == b'\'') ≡ false
    → Counts n s (char_loop (suc n) s)
unfolding char_loop
char_loop-Counts n s v nz nq =
    let h : s.at.ch ≢ 0 = ground arith in
    let step = lex_advance-Consumes v h in
    elim (Bool-cases (s.at.ch == b'\\')) [
      | inr ne ↦ rw (nz, nq, ne) (plain (ground arith) step refl)
      | inl e ↦
          let slash = one_Consumes {c = b'\\'} v (ground arith) (omega arith) in
          elim (Bool-cases (ends_scan (lex_advance s.at))) [
            | inl z ↦ rw (nz, nq, e, z) (unfinished (ground arith) slash refl)
            | inr nz' ↦
                let h' : (lex_advance s.at).ch ≢ 0 = ground arith in
                rw (nz, nq, e, nz')
                  (escaped _ (Consumes-trans slash (lex_advance-Consumes step.valid h')) refl refl)
          ]
    ]

-- A round on a value counts it, and the counter does not fall behind it.
pub counted :
    (n : ℕ) (s : CharScan)
    → IsValid s.at
    → left s.at ≤ suc n
    → ends_scan s.at ≡ false
    → (s.at.ch == b'\'') ≡ false
    → (char_loop (suc n) s).value_count ≡ s.value_count
    → ⊥
counted n s v f nz nq c = elim (char_loop-Counts n s v nz nq) [
  | unfinished _ p e ↦ omega (arith, ap CharScan.value_count e)
  | escaped _ p _ e ↦ omega (
    arith,
    ap CharScan.value_count e,
    (char_loop-Walk n (next_escaped s) p.valid (omega (arith, left-Consumes v p))).mono,
  )
  | plain _ p e ↦ omega (
    arith,
    ap CharScan.value_count e,
    (char_loop-Walk n (next_plain s) p.valid (omega (arith, left-Consumes v p))).mono,
  )
]
