-- ===== src/CommandLine/Rounds.antt =====
-- The rounds of the loop that splits a command line, and the array that it fills
-- (apps/kinal/src/kn_util.c).
use kinal.CString.{c_string}
use kinal.CommandLine.{
  KnArgs, args_push, is_gap, skip_gap, until, from, is_quote, skip_quote, parse_loop, no_args,
  kn_parse_cmdline,
}
use kinal.Prelude.{
  ℕ, zero, suc, ◌+◌, ◌%◌, ◌≤◌, ◌<◌, Bool, true, false, Option, none, some, [], ◌∷◌, ◌++◌, Bytes,
  length, ◌==◌, ◌≡◌, refl, sym, ap, subst, ◌∙◌, ◌⊎◌, inl, inr, arith, Bool-cases, length-append,
}

-- The array has room for the arguments, at most 7 more than there are, and is used up only at a
-- multiple of 8.
pub record IsRoomy (a : KnArgs) : Type 0 where
  pub room : length a.argv ≤ a.cap
  pub tight : a.cap ≤ length a.argv + 7
  pub units : a.cap % 8 ≡ 0
  pub next : (length a.argv % 8 ≡ 0) ⊎ (length a.argv < a.cap)

args_push-IsRoomy :
    (a : KnArgs) (s : Bytes)
    → IsRoomy a
    → (length a.argv < (args_push a s).cap) × IsRoomy (args_push a s)
unfolding args_push
args_push-IsRoomy a s v =
    let size : length (a.argv ++ (s ∷ [])) ≡ length a.argv + 1 =
      omega (arith, length-append a.argv (s ∷ [])) in
    let index : length a.argv < (args_push a s).cap = ground (arith, v.next) in
    let units : (args_push a s).cap % 8 ≡ 0 = ground (arith, v.units) in
    let next : (length (a.argv ++ (s ∷ [])) % 8 ≡ 0)
        ⊎ (length (a.argv ++ (s ∷ [])) < (args_push a s).cap) =
      elim (Bool-cases (length (a.argv ++ (s ∷ [])) == (args_push a s).cap)) [
        | inl e ↦ inl (ground (arith, units, e))
        | inr e ↦ inr (ground (arith, size, index, e))
      ] in
    let tight : (args_push a s).cap ≤ length (a.argv ++ (s ∷ [])) + 7 =
      ground (arith, size, v.tight) in
    (index, record { room = omega (arith, size, index); tight = tight; units = units; next = next })

skip_gap-length : (s : Bytes) → length (skip_gap s) ≤ length s
unfolding skip_gap
skip_gap-length [] = omega arith
skip_gap-length (c ∷ s) = ground (arith, skip_gap-length s)

from-length : (stop : ℕ → Bool) (s : Bytes) → length (from stop s) ≤ length s
unfolding from
from-length stop [] = omega arith
from-length stop (c ∷ s) = ground (arith, from-length stop s)

-- A text is empty or has a first byte, a quote or another.
data Head (r : Bytes) : Type 0 where
  empty : r ≡ [] → Head r
  quote : {c : ℕ} {t : Bytes} → is_quote c ≡ true → r ≡ c ∷ t → Head r
  other : {c : ℕ} {t : Bytes} → is_quote c ≡ false → r ≡ c ∷ t → Head r

head : (r : Bytes) → Head r
head [] = empty refl
head (c ∷ t) = elim (Bool-cases (is_quote c)) [ inl e ↦ quote e refl | inr e ↦ other e refl ]

-- One round of the loop, by what stands behind the gap.
module _ (n : ℕ) (s : Bytes) (acc : KnArgs) where
  pub round_end : skip_gap s ≡ [] → parse_loop (suc n) s acc ≡ acc
  unfolding parse_loop
  round_end e = rw (e, parse_loop) refl

  pub round_quote :
      {c : ℕ} {t : Bytes}
      → is_quote c ≡ true
      → skip_gap s ≡ c ∷ t
      → parse_loop (suc n) s acc
        ≡ parse_loop n (skip_quote (from is_quote t)) (args_push acc (until is_quote t))
  unfolding parse_loop
  round_quote q e = rw (e, q, parse_loop) refl

  round_other :
      {c : ℕ} {t : Bytes}
      → is_quote c ≡ false
      → skip_gap s ≡ c ∷ t
      → parse_loop (suc n) s acc
        ≡ parse_loop n (from is_gap (c ∷ t)) (args_push acc (until is_gap (c ∷ t)))
  unfolding parse_loop
  round_other q e = rw (e, q, parse_loop) refl

parse_loop-IsRoomy : (n : ℕ) (s : Bytes) (acc : KnArgs) → IsRoomy acc → IsRoomy (parse_loop n s acc)
unfolding parse_loop
parse_loop-IsRoomy zero s acc v = v
parse_loop-IsRoomy (suc n) s acc v = elim (head (skip_gap s)) [
  | empty e ↦ subst IsRoomy (sym (round_end n s acc e)) v
  | quote q e ↦
      subst IsRoomy (sym (round_quote n s acc q e))
        (parse_loop-IsRoomy n _ _ (args_push-IsRoomy acc _ v).1)
  | other q e ↦
      subst IsRoomy (sym (round_other n s acc q e))
        (parse_loop-IsRoomy n _ _ (args_push-IsRoomy acc _ v).1)
]

no_args-IsRoomy : IsRoomy no_args
no_args-IsRoomy = record { room = omega arith; tight = omega arith; units = refl; next = inl refl }

length-args_push : (a : KnArgs) (s : Bytes) → length (args_push a s).argv ≡ length a.argv + 1
unfolding args_push
length-args_push a s = omega (arith, length-append a.argv (s ∷ []))

-- A round adds one argument at most.
parse_loop-length :
    (n : ℕ) (s : Bytes) (acc : KnArgs) → length (parse_loop n s acc).argv ≤ length acc.argv + n
unfolding parse_loop
parse_loop-length zero s acc = omega arith
parse_loop-length (suc n) s acc = elim (head (skip_gap s)) [
  | empty e ↦ omega (arith, ap (λ a. length a.argv) (round_end n s acc e))
  | quote {c = c} {t = t} q e ↦ omega (
    arith,
    ap (λ a. length a.argv) (round_quote n s acc q e),
    parse_loop-length n (skip_quote (from is_quote t)) (args_push acc (until is_quote t)),
    length-args_push acc (until is_quote t),
  )
  | other {c = c} {t = t} q e ↦ omega (
    arith,
    ap (λ a. length a.argv) (round_other n s acc q e),
    parse_loop-length n (from is_gap (c ∷ t)) (args_push acc (until is_gap (c ∷ t))),
    length-args_push acc (until is_gap (c ∷ t)),
  )
]

-- The bytes in front of the NUL of the command line.
abbrev pub line_length : Option Bytes → ℕ
line_length none = 0
line_length (some cmd) = length (c_string cmd)

-- Where each array that is asked for can be allocated, the array of arguments has room for all of
-- them whatever the command line is, at most 7 places more, and it is full only when their number is
-- a multiple of 8. There are no more arguments than bytes in the line, so that neither their number
-- nor a capacity overflows an int on a line of fewer than 2 ^ 31 - 7 bytes.
pub kn_parse_cmdline-IsRoomy :
    (cmd : Option Bytes)
    → IsRoomy (kn_parse_cmdline cmd)
      × (length (kn_parse_cmdline cmd).argv ≤ line_length cmd)
      × ((kn_parse_cmdline cmd).cap ≤ line_length cmd + 7)
unfolding kn_parse_cmdline
kn_parse_cmdline-IsRoomy none = (no_args-IsRoomy, omega arith, omega arith)
kn_parse_cmdline-IsRoomy (some cmd) =
    let s = c_string cmd in
    let roomy = parse_loop-IsRoomy (length s) s no_args no_args-IsRoomy in
    let few = parse_loop-length (length s) s no_args in
    (roomy, omega (arith, few), omega (arith, few, roomy.tight))

skip_gap-head : (s : Bytes) (c : ℕ) (t : Bytes) → skip_gap s ≡ c ∷ t → is_gap c ≡ false
unfolding skip_gap
skip_gap-head [] c t e = absurd (ground arith)
skip_gap-head (d ∷ s) c t e = elim (Bool-cases (is_gap d)) [
  | inl g ↦ skip_gap-head s c t (ground (arith, g, e))
  | inr g ↦ ground (arith, g, e)
]

skip_quote-length : (s : Bytes) → length (skip_quote s) ≤ length s
skip_quote-length [] = omega arith
skip_quote-length (c ∷ s) = omega arith

-- A word that begins takes a byte.
from_word : (c : ℕ) (t : Bytes) → is_gap c ≡ false → from is_gap (c ∷ t) ≡ from is_gap t
unfolding from
from_word c t g = rw g refl

parse_empty : (n : ℕ) (acc : KnArgs) → parse_loop n [] acc ≡ acc
unfolding parse_loop skip_gap
parse_empty zero acc = refl
parse_empty (suc n) acc = refl

-- The loop over a command line ends because the line does: any two amounts of fuel that are not
-- less than the length of the line give the same arguments.
pub parse_loop_enough :
    (n m : ℕ) (s : Bytes) (acc : KnArgs)
    → length s ≤ n
    → length s ≤ m
    → parse_loop n s acc ≡ parse_loop m s acc
parse_loop_enough n m [] acc h k = parse_empty n acc ∙ sym (parse_empty m acc)
parse_loop_enough zero m (d ∷ s) acc h k = absurd (omega (arith, h))
parse_loop_enough (suc n) zero (d ∷ s) acc h k = absurd (omega (arith, k))
parse_loop_enough (suc n) (suc m) (d ∷ s) acc h k =
    let line = d ∷ s in
    let short = skip_gap-length line in
    elim (head (skip_gap line)) [
      | empty e ↦ round_end n line acc e ∙ sym (round_end m line acc e)
      | quote {c = c} {t = t} q e ↦
          let a = skip_quote-length (from is_quote t) in
          let b = from-length is_quote t in
          let size = ap length e in
          round_quote n line acc q e
          ∙ parse_loop_enough n m _ _ (omega (arith, a, b, size, short, h))
              (omega (arith, a, b, size, short, k))
          ∙ sym (round_quote m line acc q e)
      | other {c = c} {t = t} q e ↦
          let g = ap length (from_word c t (skip_gap-head line c t e)) in
          let b = from-length is_gap t in
          let size = ap length e in
          round_other n line acc q e
          ∙ parse_loop_enough n m _ _ (omega (arith, g, b, size, short, h))
              (omega (arith, g, b, size, short, k))
          ∙ sym (round_other m line acc q e)
    ]
