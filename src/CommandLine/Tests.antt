-- ===== src/CommandLine/Tests.antt =====
-- A command line with plain and quoted arguments.
use kinal.CString.{c_string}
use kinal.CommandLine.Quoting.{IsQuotable, quote_all, kn_parse_cmdline-quote_all}
use kinal.CommandLine.Rounds.{IsRoomy, line_length, parse_loop_enough, kn_parse_cmdline-IsRoomy}
use kinal.CommandLine.{args_push, skip_gap, until, from, parse_loop, no_args, kn_parse_cmdline}
use kinal.Prelude.{some, List, [], ◌∷◌, codes, Bytes, length, All, ◌+◌, ◌≤◌, ◌≡◌, refl, arith}

abbrev command : Bytes
command = codes " kinal \t\"a b\" c"

command_split :
    (kn_parse_cmdline (some command)).argv ≡ codes "kinal" ∷ codes "a b" ∷ codes "c" ∷ []
unfolding kn_parse_cmdline parse_loop skip_gap until from args_push c_string
command_split = refl

abbrev words : List Bytes
words = codes "kinal" ∷ codes "a b" ∷ []

words-IsQuotable : All IsQuotable words
words-IsQuotable = ground arith

kn_parse_cmdline-quote_all_example : (kn_parse_cmdline (some (quote_all words))).argv ≡ words
kn_parse_cmdline-quote_all_example = kn_parse_cmdline-quote_all words words-IsQuotable

kn_parse_cmdline-IsRoomy_example :
    IsRoomy (kn_parse_cmdline (some command))
    × (length (kn_parse_cmdline (some command)).argv ≤ line_length (some command))
    × ((kn_parse_cmdline (some command)).cap ≤ line_length (some command) + 7)
kn_parse_cmdline-IsRoomy_example = kn_parse_cmdline-IsRoomy (some command)

short : length command ≤ 20
short = omega arith

long : length command ≤ 40
long = omega arith

parse_loop_enough_example : parse_loop 20 command no_args ≡ parse_loop 40 command no_args
parse_loop_enough_example = parse_loop_enough 20 40 command no_args short long
