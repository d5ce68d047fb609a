-- ===== src/Format/Ink/Sources.antt =====
-- A whole source keeps its ink, where the lexer reads it to the end.
pub mod Cuts
pub mod Rounds
pub use Rounds.{last_length, last_start}
use kinal.Format.Ink.Sources.Rounds.{
  NoLoneReturn-behind, emit_loop-Emits, finish-ink, bom-bom_length, bom_length-le, gap_to_end,
  initial-IsBlank,
}
use kinal.Format.Ink.Sources.Cuts.{
  behind, text_at, before, not_before, gap_to-Writes, gap_to-no_slash,
}
use kinal.CString.{NoNul, c_string_id}
use kinal.Format.Buffer.{fmt_buf_last_is_newline, fmt_trim_trailing_spaces}
use kinal.Format.Emit.{token_text, fmt_emit_token}
use kinal.Format.Ink.Gaps.{NoLoneReturn, process_gap-Writes, process_gap-no_slash}
use kinal.Format.Ink.Steps.{
  Writes, Writes-trans, Writes-refl, IsBlank, Writes-IsBlank, Writes-if, ink-trim,
  append_out-Writes, emit_newline-Writes, emit_token-Writes, bytes-append, Writes-none,
}
use kinal.Format.Ink.{ink, ink-append}
use kinal.Format.Source.{
  fmt_is_crlf, slice, fmt_initial, next_token, gap_to, emit_loop, fmt_finish, bom_length,
  fmt_format_source,
}
use kinal.Format.State.{FmtState, append_out, fmt_emit_newline}
use kinal.Lexer.State.{has_bom}
use kinal.Lexer.Token.{Token}
use kinal.Lexer.Tokens.Layout.{Stops, Tokenised, last, more, bom, body, tokens_of-Tokenised}
use kinal.Lexer.Tokens.{tokens_of}
use kinal.Lexer.Trivia.Grammar.{IsTrivia}
use mathlib.Core.Path.{ap₂}
use kinal.Prelude.{
  ℕ, zero, suc, ◌+◌, ◌-◌, ◌≤◌, ◌<◌, true, false, not, List, [], ◌∷◌, ◌++◌, some, ◌≡◌, ◌≢◌, refl,
  sym, ap, subst, ◌∙◌, ◌⊎◌, inl, inr, arith, append-nil, append_assoc, ltb, if◌then◌else◌,
  Bool-cases, Bytes, length, take, drop, take-length-append, take-append-drop, drop-length-append,
  length-append, length-drop, All,
}

-- The state of `fmt_format_source` behind its loop, from a source that is a C string.
record Read (src : Bytes) : Type 0 where
  read : Bytes
  unread : Bytes
  st : FmtState
  splits : src ≡ read ++ unread
  wrote : ink st.out.bytes ≡ ink read
  same_src : st.src ≡ src
  blank : IsBlank st
  formatted : fmt_format_source src ≡ fmt_finish (gap_to (length read) (length src) st)
  start_is : last_start (tokens_of (some src)) ≡ length read
  unread_is : (unread ≡ []) ⊎ (0 < last_length (tokens_of (some src)))

Read-source : (src : Bytes) → NoNul src → NoLoneReturn src → Read src
unfolding fmt_format_source
Read-source src nul ret =
    let cursor = bom_length src in
    let st = append_out (fmt_initial src) (take cursor src) in
    let ts = tokens_of (some src) in
    let at : bom src ≡ cursor = bom-bom_length src nul in
    let text : body src ≡ drop cursor src = ap₂ drop at (c_string_id src nul) in
    let tokens =
      subst (λ x. Tokenised cursor 1 1 x ts) text
        (subst (λ (p : ℕ). Tokenised p 1 1 (body src) ts) at (tokens_of-Tokenised src)) in
    let whole = take-append-drop cursor src in
    let p = append_out-Writes (fmt_initial src) (take cursor src) in
    let blank = Writes-IsBlank p (initial-IsBlank src) in
    let m =
      emit_loop-Emits st tokens refl
        (NoLoneReturn-behind (take cursor src) _ (subst NoLoneReturn (sym whole) ret)) blank in
    let out = Writes-trans p m.writes in
    let end : (emit_loop ts st cursor).1 ≡ length (take cursor src ++ m.read) =
      m.end_is
      ∙ omega (
        arith,
        bom_length-le src,
        length-drop cursor src,
        ap length whole,
        length-append (take cursor src) (drop cursor src),
        length-append (take cursor src) m.read,
      ) in
    record {
      read = take cursor src ++ m.read;
      unread = m.unread;
      st = (emit_loop ts st cursor).0;
      splits =
          sym whole
          ∙ ap (take cursor src ++◌) m.splits
          ∙ sym (append_assoc (take cursor src) m.read m.unread);
      wrote = out.wrote ∙ unfold ink in refl;
      same_src = out.src_is;
      blank = Writes-IsBlank out (initial-IsBlank src);
      formatted = ap (λ (k : ℕ). fmt_finish (gap_to k (length src) (emit_loop ts st cursor).0)) end;
      start_is = m.start_is ∙ end;
      unread_is = m.unread_is;
    }

-- The formatter keeps every byte that is not a space, a tab, a carriage return or a newline, and
-- their order, for a source with no NUL and no lone carriage return that is lexed to its end: the
-- last token is the one of no length at the end of the source.
pub format-ink :
    (src : Bytes)
    → NoNul src
    → NoLoneReturn src
    → last_length (tokens_of (some src)) ≡ 0
    → ink (fmt_format_source src) ≡ ink src
format-ink src nul ret n =
    let m = Read-source src nul ret in
    let none_left : m.unread ≡ [] = elim m.unread_is [
      | inl e ↦ e
      | inr h ↦ absurd (omega (arith, n))
    ] in
    let all : src ≡ m.read = m.splits ∙ ap (m.read ++◌) none_left ∙ append-nil m.read in
    ap ink m.formatted
    ∙ ap (λ s. ink (fmt_finish s)) (gap_to_end _ _ m.st (sym (ap length all)))
    ∙ finish-ink m.st m.blank
    ∙ m.wrote
    ∙ sym (ap ink all)

-- In a source with no NUL and no lone carriage return, where the lexer meets a byte that begins no
-- token, the formatter drops all ink from that byte on, if no comment can begin behind it: no `/`
-- stands there. What is left is the ink of the source before it.
pub format-ink_truncated :
    (src : Bytes)
    → NoNul src
    → NoLoneReturn src
    → 0 < last_length (tokens_of (some src))
    → All (λ c. c ≢ b'/') (drop (last_start (tokens_of (some src))) src)
    → ink (fmt_format_source src) ≡ ink (take (last_start (tokens_of (some src))) src)
format-ink_truncated src nul ret n a =
    let m = Read-source src nul ret in
    let len = length m.read in
    let whole : drop len src ≡ m.unread =
      ap (drop len) m.splits ∙ drop-length-append m.read m.unread in
    let front : take (last_start (tokens_of (some src))) src ≡ m.read =
      ap₂ take m.start_is m.splits ∙ take-length-append m.read m.unread in
    let a' : All (λ c. c ≢ b'/') m.unread =
      subst (All (λ c. c ≢ b'/')) (ap (λ (k : ℕ). drop k src) m.start_is ∙ whole) a in
    let place : drop len m.st.src ≡ m.unread ++ [] =
      ap (drop len) m.same_src ∙ whole ∙ sym (append-nil m.unread) in
    let size : length src ≡ len + length m.unread =
      ap length m.splits ∙ length-append m.read m.unread in
    let p = gap_to-no_slash len (length src) m.unread m.st place size a' in
    ap ink m.formatted
    ∙ finish-ink _ (Writes-IsBlank p m.blank)
    ∙ Writes-none p
    ∙ m.wrote
    ∙ sym (ap ink front)
