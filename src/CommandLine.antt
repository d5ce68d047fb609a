-- ===== src/CommandLine.antt =====
-- The splitting of a command line (apps/kinal/src/kn_util.c, args_push and kn_parse_cmdline). The
-- line that `GetCommandLineA` gives is an optional text; the copies of the arguments are lists,
-- since the code ends the program when one cannot be made. args_push takes a
-- new array without a test of what kn_malloc returns, so the model is of runs in which it succeeds.
-- `argc` is an int, which it does not overflow on a line that is shorter than 2 ^ 31 - 7 bytes. `cap` is the length of the array that
-- `argv` points to.
pub mod Rounds
pub mod Quoting
mod Tests
use kinal.CString.{c_string}
use kinal.Prelude.{
  ℕ, zero, suc, ◌+◌, ◌%◌, Bool, true, false, ◌||◌, if◌then◌else◌, Option, none, some, List, [], ◌∷◌,
  ◌++◌, Bytes, length, ◌==◌,
}

pub record KnArgs : Type 0 where
  pub argv : List Bytes
  pub cap : ℕ

unfoldable pub args_push : KnArgs → Bytes → KnArgs
args_push a s =
    let argc = length a.argv in
    record { argv = a.argv ++ (s ∷ []); cap = if argc % 8 == 0 then argc + 8 else a.cap }

abbrev pub is_gap : ℕ → Bool
is_gap c = c == b' ' || c == b'\t'

unfoldable pub skip_gap : Bytes → Bytes
skip_gap [] = []
skip_gap (c ∷ s) = let rest = skip_gap s in if is_gap c then rest else c ∷ s

-- The bytes in front of the first that passes a test, and those from it on.
unfoldable pub until : (ℕ → Bool) → Bytes → Bytes
until stop [] = []
until stop (c ∷ s) = let rest = until stop s in if stop c then [] else c ∷ rest

unfoldable pub from : (ℕ → Bool) → Bytes → Bytes
from stop [] = []
from stop (c ∷ s) = let rest = from stop s in if stop c then c ∷ s else rest

abbrev pub is_quote : ℕ → Bool
is_quote c = c == b'"'

-- The closing quote, if the argument ends at one.
abbrev pub skip_quote : Bytes → Bytes
skip_quote [] = []
skip_quote (c ∷ s) = s

-- The outer loop, on fuel.
unfoldable pub parse_loop : ℕ → Bytes → KnArgs → KnArgs
parse_loop zero s args = args
parse_loop (suc n) s args = elim (skip_gap s) [
  | [] ↦ args
  | c ∷ t ↦ elim (is_quote c) [
    | true ↦ parse_loop n (skip_quote (from is_quote t)) (args_push args (until is_quote t))
    | false ↦ parse_loop n (from is_gap (c ∷ t)) (args_push args (until is_gap (c ∷ t)))
  ]
]

abbrev pub no_args : KnArgs
no_args = record { argv = []; cap = 0 }

unfoldable pub kn_parse_cmdline : Option Bytes → KnArgs
kn_parse_cmdline none = no_args
kn_parse_cmdline (some cmd) = let s = c_string cmd in parse_loop (length s) s no_args
