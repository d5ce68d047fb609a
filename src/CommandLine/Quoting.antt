-- ===== src/CommandLine/Quoting.antt =====
-- Quoted arguments come back from the command line (apps/kinal/src/kn_util.c).
use kinal.CommandLine.Rounds.{round_end, round_quote}
use kinal.CString.{NoNul, c_string_id}
use kinal.CommandLine.{
  KnArgs, args_push, skip_gap, until, from, is_quote, parse_loop, no_args, kn_parse_cmdline,
}
use kinal.Prelude.{
  ℕ, zero, suc, ◌≤◌, ◌<◌, some, List, [], ◌∷◌, ◌++◌, Bytes, length, All, ◌≡◌, ◌≢◌, refl, sym, ap,
  ◌∙◌, arith, append_assoc, append-nil, length-append, All-append,
}

-- The text with each argument in quotes, and a space behind it.
unfoldable pub quote_all : List Bytes → Bytes
quote_all [] = []
quote_all (a ∷ rest) = b'"' ∷ (a ++ (b'"' ∷ b' ' ∷ quote_all rest))

abbrev pub IsQuotable : Bytes → Type 0
IsQuotable a = All (λ c. (c ≢ 0) × (c ≢ b'"')) a

until_quoted : (a r : Bytes) → IsQuotable a → until is_quote (a ++ (b'"' ∷ r)) ≡ a
unfolding until
until_quoted [] r h = refl
until_quoted (c ∷ a) r ((n, q), h) = ground (arith, until_quoted a r h)

from_quoted : (a r : Bytes) → IsQuotable a → from is_quote (a ++ (b'"' ∷ r)) ≡ b'"' ∷ r
unfolding from
from_quoted [] r h = refl
from_quoted (c ∷ a) r ((n, q), h) = ground (arith, from_quoted a r h)

skip_gap-quote_all : (args : List Bytes) → skip_gap (quote_all args) ≡ quote_all args
unfolding skip_gap quote_all
skip_gap-quote_all [] = refl
skip_gap-quote_all (a ∷ args) = refl

skip_gap-space : (args : List Bytes) → skip_gap (b' ' ∷ quote_all args) ≡ quote_all args
unfolding skip_gap
skip_gap-space args = skip_gap-quote_all args

parse_none : (s : Bytes) (acc : KnArgs) → (parse_loop zero s acc).argv ≡ acc.argv
unfolding parse_loop
parse_none s acc = refl

args_push-argv : (a : KnArgs) (s : Bytes) → (args_push a s).argv ≡ a.argv ++ (s ∷ [])
unfolding args_push
args_push-argv a s = refl

parse_quoted :
    (args : List Bytes) (n : ℕ) (s : Bytes) (acc : KnArgs)
    → All IsQuotable args
    → skip_gap s ≡ quote_all args
    → length (quote_all args) ≤ n
    → (parse_loop n s acc).argv ≡ acc.argv ++ args
unfolding quote_all
parse_quoted [] zero s acc q e h = parse_none s acc ∙ sym (append-nil acc.argv)
parse_quoted [] (suc n) s acc q e h =
    ap (λ r. r.argv) (round_end n s acc e) ∙ sym (append-nil acc.argv)
parse_quoted (a ∷ args) zero s acc q e h = absurd (omega (arith, h))
parse_quoted (a ∷ args) (suc n) s acc (q, qs) e h =
    let r = b' ' ∷ quote_all args in
    let here : parse_loop (suc n) s acc ≡ parse_loop n r (args_push acc a) =
      round_quote n s acc refl e ∙ rw (until_quoted a r q, from_quoted a r q) refl in
    ap (λ x. x.argv) here
    ∙ parse_quoted args n r (args_push acc a) qs (skip_gap-space args)
        (omega (arith, h, length-append a (b'"' ∷ r)))
    ∙ ap (λ x. x ++ args) (args_push-argv acc a)
    ∙ append_assoc acc.argv (a ∷ []) args

quotable-NoNul : (a : Bytes) → IsQuotable a → NoNul a
quotable-NoNul [] h = tt
quotable-NoNul (c ∷ a) ((n, q), h) = (omega (arith, n), quotable-NoNul a h)

quote_all-NoNul : (args : List Bytes) → All IsQuotable args → NoNul (quote_all args)
unfolding quote_all
quote_all-NoNul [] h = tt
quote_all-NoNul (a ∷ args) (h, hs) = (
  omega arith,
  All-append (0 <◌) a _ (quotable-NoNul a h) (omega arith, (omega arith, quote_all-NoNul args hs)),
)

-- Arguments without a quote or a NUL, each written in quotes and with spaces between, come back
-- from the command line as they are.
pub kn_parse_cmdline-quote_all :
    (args : List Bytes)
    → All IsQuotable args
    → (kn_parse_cmdline (some (quote_all args))).argv ≡ args
unfolding kn_parse_cmdline
kn_parse_cmdline-quote_all args h =
    rw (c_string_id (quote_all args) (quote_all-NoNul args h))
      (parse_quoted args _ (quote_all args) no_args h (skip_gap-quote_all args) (omega arith))
