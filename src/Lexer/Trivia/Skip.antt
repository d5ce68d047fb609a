-- ===== src/Lexer/Trivia/Skip.antt =====
-- `lex_skip_ws` passes trivia, all of it, and stops in front of a token.
use kinal.CString.{head0}
use kinal.Lexer.Moves.{
  IsValid, Consumes, Consumes-refl, Consumes-trans, lex_advance-Consumes, left-lex_advance,
  left-Consumes, head0-text, two-Consumes, lex_peek-head0, rest-end, ch-end, ch-head0, Passes,
  advance_while-Passes,
}
use kinal.Lexer.State.{Lexer, rest, lex_advance, lex_peek, left}
use kinal.Lexer.Trivia.Grammar.{
  has_close, IsTrivia, nothing, line, block, open_block, IsTrivia-append,
}
use kinal.Lexer.Trivia.{
  is_space, in_line, at_line_comment, at_block_comment, skip_line_comment, skip_block,
  skip_block_comment, skip_space, skip_ws_loop, lex_skip_ws,
}
use native.Mathlib.Nat.{le_refl}
use kinal.Prelude.{
  ℕ, zero, suc, ◌+◌, ◌≤◌, ◌<◌, true, false, ◌&&◌, [], ◌∷◌, ◌++◌, ◌≡◌, ◌≢◌, refl, sym, ap, subst,
  ◌∙◌, ◌⊎◌, inl, inr, arith, append-nil, append_assoc, ◌==◌, Bool-cases, Bytes, All,
}

append-eq-nil : (v w : Bytes) → v ++ w ≡ [] → (v ≡ []) × (w ≡ [])
append-eq-nil [] w e = (refl, e)
append-eq-nil (c ∷ v) w e = cc

-- What the loop in a block comment passes.
data BlockEnd (l m : Lexer) : Type 0 where
  closed : (b : Bytes) → has_close b ≡ false → Consumes l (b ++ b'*' ∷ b'/' ∷ []) m → BlockEnd l m
  unclosed : (b : Bytes) → has_close b ≡ false → Consumes l b m → m.ch ≡ 0 → BlockEnd l m

has_close-cons :
    {l : Lexer} (b t : Bytes)
    → IsValid l
    → l.ch ≢ 0
    → (l.ch == b'*' && lex_peek l == b'/') ≡ false
    → has_close b ≡ false
    → rest (lex_advance l) ≡ b ++ t
    → has_close (l.ch ∷ b) ≡ false
has_close-cons {l} b t v h o f p = elim (head0-text b t (lex_advance-Consumes v h).valid p) [
  | inl e ↦ rw e (ground arith)
  | inr e ↦ rw (e, ← lex_peek-head0 v h, o) f
]

BlockEnd-cons :
    {l m : Lexer}
    → IsValid l
    → l.ch ≢ 0
    → (l.ch == b'*' && lex_peek l == b'/') ≡ false
    → BlockEnd (lex_advance l) m
    → BlockEnd l m
BlockEnd-cons {l} {m} v h o (closed b f p) =
    let t = b'*' ∷ b'/' ∷ rest m in
    closed (l.ch ∷ b) (has_close-cons b t v h o f (p.text ∙ append_assoc b _ _))
      (Consumes-trans (lex_advance-Consumes v h) p)
BlockEnd-cons {l} {m} v h o (unclosed b f p e) =
    unclosed (l.ch ∷ b) (has_close-cons b (rest m) v h o f p.text)
      (Consumes-trans (lex_advance-Consumes v h) p) e

skip_block-BlockEnd : (n : ℕ) (l : Lexer) → IsValid l → left l ≤ n → BlockEnd l (skip_block n l)
unfolding skip_block
skip_block-BlockEnd zero l v f = unclosed [] refl (Consumes-refl v) (ch-end v f)
skip_block-BlockEnd (suc n) l v f = elim (Bool-cases (l.ch == 0)) [
  | inl z ↦ rw z (unclosed [] refl (Consumes-refl v) (ground arith))
  | inr nz ↦
      let h : l.ch ≢ 0 = ground arith in
      let step = lex_advance-Consumes v h in
      elim (Bool-cases (l.ch == b'*' && lex_peek l == b'/')) [
        | inl e ↦
            rw (nz, e)
              (closed [] refl (
                two-Consumes b'*' b'/' v (ground arith) (ground arith) (omega arith) (omega arith)))
        | inr o ↦
            rw (nz, o)
              (BlockEnd-cons v h o
                (skip_block-BlockEnd n (lex_advance l) step.valid (left-lex_advance v h f)))
      ]
]

-- From `l` to `m` the lexer passes trivia, and `m` stands in front of a token or at the end.
pub record Skips (l m : Lexer) : Type 0 where
  pub gap : Bytes
  pub moves : Consumes l gap m
  pub trivia : IsTrivia (rest m) gap
  pub no_space : is_space m.ch ≡ false
  pub no_line_comment : at_line_comment m ≡ false
  pub no_block_comment : at_block_comment m ≡ false

-- A piece of trivia in front of what is skipped next.
Skips-append :
    {l k m : Lexer} {w : Bytes}
    → Consumes l w k
    → (s : Skips k m) → IsTrivia (rest m) (w ++ s.gap)
    → Skips l m
Skips-append {w = w} p s t = record {
  gap = w ++ s.gap;
  moves = Consumes-trans p s.moves;
  trivia = t;
  no_space = s.no_space;
  no_line_comment = s.no_line_comment;
  no_block_comment = s.no_block_comment;
}

in_line-All : (w : Bytes) → All (λ c. in_line c ≡ true) w → All (λ c. c ≢ b'\n') w
unfolding in_line
in_line-All [] h = tt
in_line-All (c ∷ w) h = (ground arith, in_line-All w h.1)

line_end :
    {k m : Lexer} {g : Bytes}
    → IsValid k
    → in_line k.ch ≡ false
    → Consumes k g m
    → (head0 (g ++ rest m) ≡ b'\n') ⊎ (g ++ rest m ≡ [])
unfolding in_line
line_end {k} v e p = elim (Bool-cases (k.ch == 0)) [
  | inl z ↦ inr (sym p.text ∙ rest-end v (ground arith))
  | inr z ↦ inl (ap head0 (sym p.text) ∙ sym (ch-head0 v) ∙ ground arith)
]

-- The move over a line comment, and that it is trivia before any trivia that follows.
in_line_zero : in_line 0 ≡ false
unfolding in_line
in_line_zero = refl

line_comment_Skips :
    {l : Lexer} {m : Lexer}
    → IsValid l
    → at_line_comment l ≡ true
    → Skips (skip_line_comment l) m
    → Skips l m
unfolding skip_line_comment at_line_comment
line_comment_Skips {l} v a s =
    let start =
      two-Consumes b'/' b'/' v (ground arith) (ground arith) (omega arith) (omega arith) in
    let body = advance_while-Passes in_line in_line_zero _ _ start.valid (le_refl _) in
    Skips-append (Consumes-trans start body.moves) s (
      line body.word (in_line-All body.word body.all) (line_end body.moves.valid body.stops s.moves)
        s.trivia refl)

block_Skips :
    {l k m : Lexer}
    → IsValid l
    → at_block_comment l ≡ true
    → BlockEnd (lex_advance (lex_advance l)) k
    → IsValid (lex_advance (lex_advance l))
    → Skips k m
    → Skips l m
unfolding at_block_comment
block_Skips {l} {k} {m} v a (closed b f p) v' s =
    let start =
      two-Consumes b'/' b'*' v (ground arith) (ground arith) (omega arith) (omega arith) in
    Skips-append (Consumes-trans start p) s
      (block b f s.trivia (ap (λ t. b'/' ∷ b'*' ∷ t) (append_assoc b _ s.gap)))
block_Skips {l} {k} {m} v a (unclosed b f p e) v' s =
    let start =
      two-Consumes b'/' b'*' v (ground arith) (ground arith) (omega arith) (omega arith) in
    let (g, r) = append-eq-nil s.gap (rest m) (sym s.moves.text ∙ rest-end p.valid e) in
    Skips-append (Consumes-trans start p) s
      (open_block b f r (ap (λ t. b'/' ∷ b'*' ∷ t) (ap (b ++◌) g ∙ append-nil b)))

block_comment_Skips :
    {l m : Lexer}
    → IsValid l
    → at_block_comment l ≡ true
    → Skips (skip_block_comment l) m
    → Skips l m
unfolding skip_block_comment at_block_comment
block_comment_Skips {l} v a s =
    let start =
      two-Consumes b'/' b'*' v (ground arith) (ground arith) (omega arith) (omega arith) in
    block_Skips v a (skip_block-BlockEnd _ _ start.valid (le_refl _)) start.valid s

is_space_zero : is_space 0 ≡ false
unfolding is_space
is_space_zero = refl

spaces-IsTrivia : {r : Bytes} (w : Bytes) → All (λ c. is_space c ≡ true) w → IsTrivia r w
spaces-IsTrivia {r} w h = subst (IsTrivia r) (append-nil w) (IsTrivia-append w h nothing)

spaces_Skips : {l k m : Lexer} → Passes is_space l k → Skips k m → Skips l m
spaces_Skips p s = Skips-append p.moves s (IsTrivia-append p.word p.all s.trivia)

-- Both kinds of comment leave less to read.
line_comment_progress :
    {l : Lexer}
    → IsValid l
    → at_line_comment l ≡ true
    → IsValid (skip_line_comment l) × (left (skip_line_comment l) < left l)
unfolding skip_line_comment at_line_comment
line_comment_progress {l} v a =
    let start =
      two-Consumes b'/' b'/' v (ground arith) (ground arith) (omega arith) (omega arith) in
    let body = advance_while-Passes in_line in_line_zero _ _ start.valid (le_refl _) in
    (body.moves.valid, omega (arith, left-Consumes v start, left-Consumes start.valid body.moves))

BlockEnd-progress : {l m : Lexer} → IsValid l → BlockEnd l m → IsValid m × (left m ≤ left l)
BlockEnd-progress v (closed b f p) = (p.valid, omega (arith, left-Consumes v p))
BlockEnd-progress v (unclosed b f p e) = (p.valid, omega (arith, left-Consumes v p))

block_comment_progress :
    {l : Lexer}
    → IsValid l
    → at_block_comment l ≡ true
    → IsValid (skip_block_comment l) × (left (skip_block_comment l) < left l)
unfolding skip_block_comment at_block_comment
block_comment_progress {l} v a =
    let start =
      two-Consumes b'/' b'*' v (ground arith) (ground arith) (omega arith) (omega arith) in
    let (valid, le) =
      BlockEnd-progress start.valid (skip_block-BlockEnd _ _ start.valid (le_refl _)) in
    (valid, omega (arith, left-Consumes v start, le))

-- A round for each byte that is left, and one more, are enough.
skip_ws_loop-Skips : (n : ℕ) (l : Lexer) → IsValid l → left l < n → Skips l (skip_ws_loop n l)
unfolding skip_ws_loop skip_space
skip_ws_loop-Skips zero l v f = absurd (omega arith)
skip_ws_loop-Skips (suc n) l v f =
    let p = advance_while-Passes is_space is_space_zero (left l) l v (le_refl _) in
    let w = skip_space l in
    elim (Bool-cases (at_line_comment w)) [
      | inl a ↦
          let go = line_comment_progress p.moves.valid a in
          rw a (
            spaces_Skips p (
              line_comment_Skips p.moves.valid a (
                skip_ws_loop-Skips n (skip_line_comment w) go.0
                  (omega (arith, go.1, left-Consumes v p.moves)))))
      | inr a ↦ elim (Bool-cases (at_block_comment w)) [
        | inl b ↦
            let go = block_comment_progress p.moves.valid b in
            rw (a, b)
              (spaces_Skips p (
                block_comment_Skips p.moves.valid b (
                  skip_ws_loop-Skips n (skip_block_comment w) go.0
                    (omega (arith, go.1, left-Consumes v p.moves)))))
        | inr b ↦
            rw (a, b)
              (record {
                gap = p.word;
                moves = p.moves;
                trivia = spaces-IsTrivia p.word p.all;
                no_space = p.stops;
                no_line_comment = a;
                no_block_comment = b;
              })
      ]
    ]

-- From a valid state `lex_skip_ws` passes white space and comments only, to the last one: behind
-- them is neither a space nor the start of a comment.
pub lex_skip_ws-Skips : (l : Lexer) → IsValid l → Skips l (lex_skip_ws l)
unfolding lex_skip_ws
lex_skip_ws-Skips l v = skip_ws_loop-Skips (left l + 1) l v (omega arith)
