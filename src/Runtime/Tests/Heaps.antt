-- ===== src/Runtime/Tests/Heaps.antt =====
-- A heap of three blocks: the roots lead to the first, the first to the third.
use kinal.Prelude.{
  ℕ, zero, suc, List, [], ◌∷◌, ◌≡◌, ◌↔◌, refl, true, false, length, ◌*◌, ◌+◌, ◌<◌, ◌≤◌, arith,
}
use kinal.Runtime.Collector.Keeps.{Kept, Reached, gc_collect-Reached}
use kinal.Runtime.Collector.Search.{IsIndex}
use kinal.Runtime.Collector.Reach.{Reach, gc_marks-Reach}
use kinal.Runtime.Collector.{
  KnGcBlock, block_at, is_marked, search_start, gc_find_indexed_block, unmarked_blocks, gc_mark_ptr,
  gc_scan_region, traverse, gc_marks, sweep, total_bytes, gc_collect,
}

abbrev block : ℕ → List ℕ → KnGcBlock
block ptr words = record { ptr = ptr; size = 16; words = words }

abbrev blocks : List KnGcBlock
blocks = block 100 (0 ∷ 145 ∷ []) ∷ block 120 (100 ∷ 0 ∷ []) ∷ block 140 (140 ∷ 99 ∷ []) ∷ []

abbrev root_words : List ℕ
root_words = 7 ∷ 108 ∷ []

blocks_marks : (gc_marks blocks root_words).marks ≡ true ∷ false ∷ true ∷ []
unfolding gc_marks traverse gc_scan_region gc_mark_ptr gc_find_indexed_block search_start
    unmarked_blocks
blocks_marks = refl

blocks_kept : gc_collect blocks root_words ≡ record {
  blocks = block 100 (0 ∷ 145 ∷ []) ∷ block 140 (140 ∷ 99 ∷ []) ∷ [];
  bytes = 32;
  threshold = 8 * 1024 * 1024;
}
unfolding gc_collect sweep total_bytes gc_marks traverse gc_scan_region gc_mark_ptr
    gc_find_indexed_block search_start unmarked_blocks
blocks_kept = refl

blocks_apart :
    (i j : ℕ)
    → i < j
    → j < length blocks
    → (block_at blocks i).ptr + (block_at blocks i).size ≤ (block_at blocks j).ptr
blocks_apart zero zero h b = absurd (omega (arith, h))
blocks_apart zero (suc zero) h b = omega arith
blocks_apart zero (suc (suc zero)) h b = omega arith
blocks_apart (suc zero) zero h b = absurd (omega (arith, h))
blocks_apart (suc zero) (suc zero) h b = absurd (omega (arith, h))
blocks_apart (suc zero) (suc (suc zero)) h b = omega arith
blocks_apart (suc (suc i)) j h b = absurd (omega (arith, h, b))
blocks_apart i (suc (suc (suc j))) h b = absurd (omega (arith, b))

blocks-IsIndex : IsIndex blocks
blocks-IsIndex = record { apart = blocks_apart }

gc_collect-Reached_example :
    Kept (block 140 (140 ∷ 99 ∷ [])) (gc_collect blocks root_words).blocks
    ↔ Reached blocks root_words (block 140 (140 ∷ 99 ∷ []))
gc_collect-Reached_example =
    gc_collect-Reached blocks blocks-IsIndex root_words (block 140 (140 ∷ 99 ∷ []))

gc_marks-Reach_example :
    ((gc_marks blocks root_words).stack ≡ [])
    × (length (gc_marks blocks root_words).marks ≡ length blocks)
    × ((k : ℕ) → (is_marked (gc_marks blocks root_words) k ≡ true) ↔ Reach blocks root_words k)
gc_marks-Reach_example = gc_marks-Reach blocks root_words
