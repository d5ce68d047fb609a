-- ===== src/Runtime/Text/Join.antt =====
-- Joining the elements of a list (libs/runtime/src/kn_runtime.c, __kn_text_join).
use kinal.Prelude.{
  ℕ, ◌+◌, ◌%◌, ◌^◌, ◌≤◌, ◌<◌, Bool, true, Option, some, List, [], ◌∷◌, ◌++◌, append-nil, Bytes,
  length, take, map, ◌≡◌, refl, sym, ap, ◌∙◌, arith, length-append,
}
use kinal.Runtime.Text.{join_rest, join_parts, join_length, text, text_split}
use kinal.Runtime.KnList.{KnList}
use kinal.Runtime.Text.{part, text_join}
use kinal.Runtime.Text.Replace.{or_empty}
use kinal.Runtime.Text.Results.{join_parts-text_split}

-- The first loop finds the size of what the second writes.
length-join_parts :
    (glue : Bytes) (ps : List Bytes) → length (join_parts glue ps) ≡ join_length (length glue) ps
unfolding join_parts join_rest join_length
length-join_parts glue [] = refl
length-join_parts glue (p ∷ []) = ap (λ t. length t) (append-nil p)
length-join_parts glue (p ∷ q ∷ ps) = omega (
  arith,
  length-append p (glue ++ (q ++ join_rest glue ps)),
  length-append glue (q ++ join_rest glue ps),
  length-join_parts glue (q ∷ ps),
)

-- Splitting a text and joining the list of its parts by what it was split at gives the text again,
-- wherever the list and its texts stand, with memory for more bytes than the text has, fewer than
-- 2 ^ 62.
pub text_join-text_split :
    (gc_alloc : ℕ → Bool) (most : ℕ)
    → ((n : ℕ) → n ≤ most → gc_alloc n ≡ true)
    → most < 2 ^ 62
    → (m : Bytes) (q : Option Bytes) (texts : ℕ → Option Bytes) (l : KnList)
    → length (text (some m)) < most
    → map (part texts) (take l.count l.items) ≡ map or_empty (text_split gc_alloc (some m) q)
    → text_join gc_alloc texts l q ≡ text (some m)
unfolding text_join
text_join-text_split gc_alloc most plenty fits m q texts l h held =
    let ps = map (part texts) (take l.count l.items) in
    let whole =
      ap (join_parts (text q)) held ∙ join_parts-text_split gc_alloc most plenty fits m q h in
    let size : join_length (length (text q)) ps ≡ length (text (some m)) =
      sym (length-join_parts (text q) ps) ∙ ap (λ t. length t) whole in
    let given : gc_alloc ((join_length (length (text q)) ps + 1) % 2 ^ 64) ≡ true =
      plenty ((join_length (length (text q)) ps + 1) % 2 ^ 64) (omega (arith, size, h)) in
    rw given whole
