-- ===== src/Source/Get.antt =====
-- kn_source_get_line (apps/kinal/src/kn_source.c) returns the line of a text with its number.
pub mod Pieces
pub use Pieces.{drop_return, shown}
use kinal.Source.Get.Pieces.{
  mark_length, mark_length-le, return_dropped, newline_dropped, mark_skipped,
}
use kinal.Prelude.{
  ℕ, zero, suc, ◌+◌, ◌-◌, ◌≤◌, ◌<◌, Bool, true, false, ◌&&◌, ◌||◌, if◌then◌else◌, [], ◌∷◌, ◌++◌,
  some, Bytes, length, get_or, take, drop, ◌==◌, ltb, All, ◌≡◌, ◌≢◌, refl, sym, ap, subst, ◌∙◌,
  arith, Bool-cases, inl, inr, ◌⊎◌, append_assoc, length-append, length-drop, drop-length-append,
  take-length-append, take-append-drop,
}
use kinal.Source.Lines.{line, Placed, placed}
use kinal.Source.{
  at, count_newlines, offsets_loop, kn_source_init, skip_bom, drop_end, line_span,
  kn_source_get_line,
}

-- The span of a line in the table, as the pieces of the text that `Placed` gives.
span_shown :
    (s : Bytes) (k end : ℕ) (r : Placed 0 s k)
    → ((r.behind ≡ []) × (end ≡ length r.before + length (line s k)))
      ⊎ ((t : Bytes) × (r.behind ≡ b'\n' ∷ t) × (end ≡ length r.before + length (line s k) + 1))
    → let start = length r.before in
      let from = skip_bom s (suc k) start end in
      let last = drop_end s b'\r' from (drop_end s b'\n' from end) in
      take (last - from) (drop from s) ≡ shown k (line s k)
span_shown s k end r b =
    let l = line s k in
    let n = mark_length k l in
    let pre = r.before ++ take n l in
    let cut : n ≤ length l = mark_length-le k l in
    let rest : length (drop n l) ≡ length l - n = length-drop n l in
    let taken : length (take n l) ≡ n =
      omega
        (arith, ap length (take-append-drop n l), length-append (take n l) (drop n l), rest, cut) in
    let size : length pre ≡ length r.before + n =
      omega (arith, length-append r.before (take n l), taken) in
    let text : s ≡ pre ++ (drop n l ++ r.behind) =
      r.splits
      ∙ ap (λ m. r.before ++ (m ++ r.behind)) (sym (take-append-drop n l))
      ∙ ap (r.before ++◌) (append_assoc (take n l) (drop n l) r.behind)
      ∙ sym (append_assoc r.before (take n l) (drop n l ++ r.behind)) in
    let from : skip_bom s (suc k) (length r.before) end ≡ length pre =
      ap (λ t. skip_bom t (suc k) (length r.before) end) r.splits
      ∙ mark_skipped k r.before l r.behind end r.first b
      ∙ sym size in
    let line_end : drop_end s b'\n' (length pre) end ≡ length pre + length (drop n l) =
      ap (λ t. drop_end t b'\n' (length pre) end) r.splits
      ∙ newline_dropped r.before l r.behind (length pre) end (omega (arith, size, cut))
          (omega (arith, size)) r.one_line b
      ∙ omega (arith, size, rest, cut) in
    rw (from, line_end)
      (ap
          (λ t.
            take (drop_end t b'\r' (length pre) (length pre + length (drop n l)) - length pre)
              (drop (length pre) t))
          text
        ∙ return_dropped pre (drop n l) r.behind)

-- Where the table has the end of a line.
abbrev line_end : Bytes → ℕ → ℕ
line_end s k =
    if ltb (suc k) (1 + count_newlines s)
    then get_or (offsets_loop (count_newlines s) 0 s) k 0
    else length s

line_end_lem :
    (s : Bytes) (k : ℕ) (r : Placed 0 s k)
    → ((r.behind ≡ []) × (line_end s k ≡ length r.before + length (line s k)))
      ⊎ ((t : Bytes) × (r.behind ≡ b'\n' ∷ t)
          × (line_end s k ≡ length r.before + length (line s k) + 1))
line_end_lem s k r =
    let size : length s ≡ length r.before + length (line s k) + length r.behind = omega (
      arith,
      ap length r.splits,
      length-append r.before (line s k ++ r.behind),
      length-append (line s k) r.behind,
    ) in
    elim r.ends [
      | inl (p, q) ↦ inl (q, ground (arith, p, size, ap length q))
      | inr (p, t, q, z) ↦ inr (t, q, ground (arith, p, z))
    ]

-- When the table could be allocated, the line with a number from 1 to the number of lines is the
-- text between two newlines, as it is shown: without the byte order mark of the first one and
-- without a carriage return at the end.
pub kn_source_get_line-shown :
    (s : Bytes) (k : ℕ)
    → k ≤ count_newlines s
    → kn_source_get_line (some (kn_source_init true s)) (suc k) ≡ shown k (line s k)
unfolding kn_source_get_line kn_source_init line_span
kn_source_get_line-shown s k h =
    let r = placed 0 s k h in
    let count = count_newlines s in
    let end = line_end s k in
    let in_range : (suc k == 0 || ltb (1 + count) (suc k)) ≡ false = ground (arith, h) in
    let room : 1 + count - 1 ≡ count = omega arith in
    let index : suc k - 1 ≡ k = omega arith in
    let start : get_or (0 ∷ offsets_loop count 0 s) k 0 ≡ length r.before =
      omega (arith, r.start_is) in
    rw (in_range, room, index, start) (span_shown s k end r (line_end_lem s k r))

-- A number that is no line's, and a table that could not be allocated, give the empty text.
kn_source_get_line_outside :
    (has_memory : Bool) (s : Bytes) (n : ℕ)
    → (has_memory ≡ false) ⊎ (n ≡ 0) ⊎ (count_newlines s + 1 < n)
    → kn_source_get_line (some (kn_source_init has_memory s)) n ≡ []
unfolding kn_source_get_line kn_source_init
kn_source_get_line_outside false s n h = refl
kn_source_get_line_outside true s n h = ground (arith, h)
