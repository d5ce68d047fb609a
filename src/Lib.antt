-- ===== src/Lib.antt =====
-- A verification library for Kinal: the front end of the C compiler `kinal`
-- (apps/kinal) and the runtime of compiled programs (libs/runtime), as definitions translated from
-- their C code, and what holds of them.
--
-- The program. The driver reads a source file; `kn_source.c` makes the table of its lines, which
-- diagnostics use; the lexer turns it into tokens; the parser, semantic analysis and two back ends
-- (LLVM and the bytecode compiler `kn_knc.c`) follow. The formatter `kinal fmt` uses the lexer
-- alone: it writes the tokens again, and the comments that it finds in the gaps between them.
-- The bytecode compiler plans the captures of a function before it emits it, and both back ends
-- classify types at a C boundary with `kn_ffi_abi.c`. All parts use the string functions of
-- `kn_util.c`. A compiled program calls the runtime for its dictionaries, sets and lists.
--
-- Which file models which code:
--   Prelude            Boolean tests, lists and lemmas that all parts share
--   CString            apps/kinal/src/kn_util.c, the string functions; CString/Order what they
--                      compute
--   Arena              apps/kinal/src/kn_util.c, the temporary arena: Blocks what an allocation
--                      does, Disjoint what a run of calls hands out
--   CommandLine        apps/kinal/src/kn_util.c, kn_parse_cmdline: Rounds its loop and its array,
--                      Quoting what comes back
--   Lexer              apps/kinal/src/kn_lexer.c and include/kn/lexer.h: Token the tokens, State
--                      the state `Lexer` with lex_init, lex_advance and lex_peek, Keywords
--                      kw_lookup, Trivia lex_skip_ws, Scan the branches of lex_next; Tokens the
--                      loop over lex_next that the formatter runs. Moves has what an advance does,
--                      Trivia/Skip, Scan/Words, Scan/Strings, Scan/Chars, Scan/Operators, Scan/Next
--                      and Tokens/Layout what each part makes
--   Format             apps/kinal/src/kn_format.c: Classes the token classes, Buffer KnFmtBuf,
--                      State KnFmtState and the steps that write white space, Gap
--                      fmt_process_gap, Emit fmt_emit_token, Source fmt_format_source. Ink, Spaces,
--                      Newline and Room have the proofs
--   Source             apps/kinal/src/kn_source.c: Lines where the table has a line, Get what
--                      kn_source_get_line returns
--   FfiAbi             apps/kinal/src/kn_ffi_abi.c
--   KncCapture         apps/kinal/src/kn_knc_capture.c over the trees of include/kn/ast.h: Syntax
--                      the trees, Plan the bindings and what marks them; Marks, Scans and
--                      Statements what the scans do
--   Runtime            libs/runtime/src/kn_runtime.c: Strings rt_streq and rt_hash, Mask the mask of
--                      a capacity, Table the hash table that KnDict and KnSet share, Dict the
--                      operations on both, KnList the lists, Text the text functions, PathList
--                      the paths of a directory search, Collector the mark and sweep
--
-- How state is modelled. A byte is a number below 256 and a text a list of them; `const char *` is
-- an optional list, none the null pointer, and C strings end at their first NUL. A pointer into a
-- text is its offset. The state records have the C fields, and an operation takes the state and
-- returns the next. Line and column counters and sizes are natural numbers: no source reaches 2^31
-- lines or 2^64 bytes. fmt_buf_reserve has the wrap of size_t. Allocations in the formatter and of
-- the argument array succeed: fmt_buf_reserve ends the process where one does not, and args_push
-- uses its array without a test. kn_source_init has its failing branch.
--
-- Fuel. The loops of the lexer run on the number of bytes that are left, which each round lowers,
-- so that a loop stops at a byte and never for want of fuel; lex_all has one round more than bytes,
-- for the end. The gap loop has the gap's length and the loop over the command line the line's,
-- since each round reads a byte. Other recursions are on lists and trees.
--
-- A hash table probes as many slots as it has, and a doubling loop stops within 64 rounds since a
-- capacity has 64 bits. The loops over a text have its length and one round more. A sift has as many
-- rounds as there are items, and the traversal of the collector as many as there are blocks.
--
-- Memory of the runtime. An allocation is a test of the number of bytes, which may refuse any. The
-- theorems on tables and lists suppose that no block is larger than 2 ^ 48 bytes, the address space,
-- and, where they say so, that the memory asked for can be had.
--
-- Not modelled: parser, semantic analysis, code generation, the driver, the linker front end, the
-- rest of the runtime and the language server; file and console input and output; kn_fmt_main, the command
-- around the formatter; and memory that is freed.
pub mod Prelude
pub mod Arena
pub mod CString
pub mod CommandLine
pub mod FfiAbi
pub mod Format
pub mod KncCapture
pub mod Lexer
pub mod Runtime
pub mod Source
