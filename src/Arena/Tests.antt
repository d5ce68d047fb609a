-- ===== src/Arena/Tests.antt =====
-- Allocations from a new arena.
use kinal.Arena.Blocks.{AreBlocks}
use kinal.Arena.Disjoint.{Call, IsSmall, run, AllApart, Between, run-AllApart, run-Between}
use kinal.Arena.{
  KnTempArena, Region, total_size, kn_align8, search_block, advance_block, take_region,
  temp_arena_alloc, kn_temp_arena_begin, kn_temp_arena_end, kn_temp_arena_create,
}
use kinal.Prelude.{true, List, [], ◌∷◌, All, ◌≡◌, refl, arith}

abbrev calls : List Call
calls =
    Call.alloc true true 5 ∷ Call.alloc true true 70000 ∷ Call.finish ∷ Call.alloc true true 0 ∷ []

abbrev fresh : KnTempArena
unfolding kn_temp_arena_begin kn_temp_arena_create
fresh = kn_temp_arena_begin kn_temp_arena_create

regions : List Region
unfolding run fresh temp_arena_alloc total_size kn_align8 search_block advance_block take_region
    kn_temp_arena_end
regions = (run calls fresh).0

regions_lem :
    regions
    ≡ record { block = 0; start = 16; size = 5 }
      ∷ record { block = 1; start = 16; size = 70000 }
      ∷ record { block = 0; start = 40; size = 1 }
      ∷ []
unfolding regions
regions_lem = refl

fresh-AreBlocks : AreBlocks fresh.blocks
unfolding fresh
fresh-AreBlocks j = record { off_le = omega arith; cap_le = omega arith; aligned = refl }

calls-IsSmall : All IsSmall calls
calls-IsSmall = (omega arith, (omega arith, (tt, (omega arith, tt))))

run-AllApart_example : AllApart (run calls fresh).0
run-AllApart_example = run-AllApart calls fresh fresh-AreBlocks calls-IsSmall

run-Between_example : All (Between fresh (run calls fresh).1) (run calls fresh).0
run-Between_example = run-Between calls fresh fresh-AreBlocks calls-IsSmall
