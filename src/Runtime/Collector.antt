-- ===== src/Runtime/Collector.antt =====
-- The collector of the runtime (libs/runtime/src/kn_runtime.c, gc_find_indexed_block to
-- __kn_gc_collect). The blocks stand in the order of the index that gc_index_sort makes, and a
-- block is named by its place there. `words` are the words that gc_scan_region reads in a block:
-- as many as begin in it, so the last may reach behind its end. `roots` are the words of the native
-- stack, the frames and the globals, and the two exceptions, in the order in which they are read. A
-- round of the traversal takes a block from the stack, so there are no more rounds than blocks.
pub mod Marks
pub mod Search
pub mod Reach
pub mod Keeps
use kinal.Prelude.{
  ℕ, zero, suc, ◌+◌, ◌-◌, ◌*◌, ◌/◌, ◌^◌, Bool, true, false, ◌&&◌, if◌then◌else◌, Option, none, some,
  List, [], ◌∷◌, length, get_or, set, ltb, leb, ◌==◌,
}

pub record KnGcBlock : Type 0 where
  pub ptr : ℕ
  pub size : ℕ
  pub words : List ℕ

abbrev pub block_at : List KnGcBlock → ℕ → KnGcBlock
block_at index k = get_or index k (record { ptr = 0; size = 0; words = [] })

-- The first place from `low` on with a block that starts behind `value`.
unfoldable pub search_start : ℕ → List KnGcBlock → ℕ → ℕ → ℕ → ℕ
search_start zero index value low high = low
search_start (suc n) index value low high =
    let middle = low + (high - low) / 2 in
    let above = search_start n index value (middle + 1) high in
    let below = search_start n index value low middle in
    if ltb low high then (if leb (block_at index middle).ptr value then above else below) else low

unfoldable pub gc_find_indexed_block : List KnGcBlock → ℕ → Option ℕ
gc_find_indexed_block index p =
    let low = search_start (length index) index p 0 (length index) in
    let b = block_at index (low - 1) in
    if p == 0
    then none
    else if low == 0
    then none
    else if leb b.ptr p && ltb (p - b.ptr) b.size
    then some (low - 1)
    else none

-- The marks of the blocks, and the stack of those whose words are still to be read.
pub record Marking : Type 0 where
  pub marks : List Bool
  pub stack : List ℕ

abbrev pub is_marked : Marking → ℕ → Bool
is_marked m k = get_or m.marks k false

unfoldable pub unmarked_blocks : ℕ → List Bool
unmarked_blocks zero = []
unmarked_blocks (suc n) = false ∷ unmarked_blocks n

module _ (index : List KnGcBlock) where
  unfoldable pub gc_mark_ptr : ℕ → Marking → Marking
  gc_mark_ptr p m = elim (gc_find_indexed_block index p) [
    | none ↦ m
    | some k ↦ if is_marked m k then m else record {
      marks = set m.marks k true;
      stack = if ltb (length m.stack) (length index) then k ∷ m.stack else m.stack;
    }
  ]

  unfoldable pub gc_scan_region : List ℕ → Marking → Marking
  gc_scan_region [] m = m
  gc_scan_region (p ∷ ps) m = gc_scan_region ps (gc_mark_ptr p m)

  unfoldable pub traverse : ℕ → Marking → Marking
  traverse zero m = m
  traverse (suc n) m = elim m.stack [
    | [] ↦ m
    | k ∷ rest ↦ traverse n (gc_scan_region (block_at index k).words (record m { stack = rest }))
  ]

  unfoldable pub gc_marks : List ℕ → Marking
  gc_marks roots =
      traverse (length index)
        (gc_scan_region roots (record { marks = unmarked_blocks (length index); stack = [] }))

-- The blocks that the sweep keeps.
unfoldable pub sweep : List KnGcBlock → List Bool → List KnGcBlock
sweep [] marks = []
sweep (b ∷ bs) [] = []
sweep (b ∷ bs) (m ∷ marks) = let rest = sweep bs marks in if m then b ∷ rest else rest

unfoldable pub total_bytes : List KnGcBlock → ℕ
total_bytes [] = 0
total_bytes (b ∷ bs) = b.size + total_bytes bs

-- What a collection leaves: the blocks, their bytes and the next threshold.
pub record Collected : Type 0 where
  pub blocks : List KnGcBlock
  pub bytes : ℕ
  pub threshold : ℕ

unfoldable pub gc_collect : List KnGcBlock → List ℕ → Collected
gc_collect index roots =
    let kept = sweep index (gc_marks index roots).marks in
    let bytes = total_bytes kept in
    record {
      blocks = kept;
      bytes = bytes;
      threshold = if ltb (bytes * 2) (8 * 1024 * 1024) then 8 * 1024 * 1024 else bytes * 2;
    }
