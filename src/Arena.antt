-- ===== src/Arena.antt =====
-- The temporary arena (apps/kinal/src/kn_util.c). The chain of blocks through `next` is a list,
-- `first` its head and `tail` its last block; `cur` is a block's place in it. `GetProcessHeap` and
-- `HeapAlloc` are the flags `has_heap` and `has_memory`, whether they give something. An address
-- is a block's place and an offset in its payload; `size_t` arithmetic wraps at 2 ^ 64.
pub mod Blocks
pub mod Disjoint
mod Tests
use kinal.Prelude.{
  ℕ, zero, suc, ◌+◌, ◌*◌, ◌/◌, ◌%◌, Bool, true, false, not, if◌then◌else◌, Option, none, some, List,
  [], ◌∷◌, ◌++◌, map, length, get_or, ltb, ◌==◌,
}

pub record KnArenaBlock : Type 0 where
  pub cap : ℕ
  pub off : ℕ

pub record KnTempArena : Type 0 where
  pub active : Bool
  pub blocks : List KnArenaBlock
  pub cur : Option ℕ

-- An allocation: the block, the offset of its payload behind the header, and its size.
pub record Region : Type 0 where
  pub block : ℕ
  pub start : ℕ
  pub size : ℕ

abbrev pub wrap : ℕ → ℕ
wrap n = n % 18446744073709551616

unfoldable pub kn_align8 : ℕ → ℕ
kn_align8 n = wrap (n + 7) / 8 * 8

-- `sizeof(KnAllocHeader)`: two 32-bit fields and a 64-bit one.
abbrev pub header_size : ℕ
header_size = 16

abbrev pub payload : ℕ → ℕ
payload n = if n == 0 then 1 else n

unfoldable pub total_size : ℕ → ℕ
total_size n = kn_align8 (wrap (header_size + payload n))

-- A place, counted from one block earlier.
abbrev pub next_place : Option ℕ → Option ℕ
next_place none = none
next_place (some i) = some (suc i)

-- The walk from the block `skip` of the list to the first that has `total` bytes left.
unfoldable pub search_block : ℕ → ℕ → List KnArenaBlock → Option ℕ
search_block total skip [] = none
search_block total (suc skip) (b ∷ bs) = next_place (search_block total skip bs)
search_block total zero (b ∷ bs) =
    let later = next_place (search_block total zero bs) in
    if ltb b.cap (wrap (b.off + total)) then later else some 0

abbrev pub no_block : KnArenaBlock
no_block = record { cap = 0; off = 0 }

-- `b->off += total` in the block with a place.
unfoldable pub advance_block : ℕ → ℕ → List KnArenaBlock → List KnArenaBlock
advance_block total i [] = []
advance_block total zero (b ∷ bs) = record b { off = wrap (b.off + total) } ∷ bs
advance_block total (suc i) (b ∷ bs) = b ∷ advance_block total i bs

-- The cap of a new block: 64 KiB, or what the allocation needs.
abbrev pub new_block : ℕ → KnArenaBlock
new_block total = record { cap = if ltb total 65536 then 65536 else total; off = 0 }

abbrev pub start_block : Option ℕ → ℕ
start_block none = 0
start_block (some i) = i

-- The end of the function, at the block `i` of `bs`.
unfoldable pub take_region : ℕ → ℕ → List KnArenaBlock → KnTempArena → Option Region × KnTempArena
take_region n i bs arena = (
  some (record { block = i; start = (get_or bs i no_block).off + header_size; size = payload n }),
  record arena { blocks = advance_block (total_size n) i bs; cur = some i },
)

unfoldable pub temp_arena_alloc : Bool → Bool → ℕ → KnTempArena → Option Region × KnTempArena
temp_arena_alloc has_heap has_memory n arena =
    if not has_heap
    then (none, arena)
    else elim (search_block (total_size n) (start_block arena.cur) arena.blocks) [
      | some i ↦ take_region n i arena.blocks arena
      | none ↦
          if has_memory
          then take_region n (length arena.blocks) (arena.blocks ++ (new_block (total_size n) ∷ []))
              arena
          else (none, arena)
    ]

abbrev first_block : List KnArenaBlock → Option ℕ
first_block [] = none
first_block (b ∷ bs) = some 0

abbrev pub reset_block : KnArenaBlock → KnArenaBlock
reset_block b = record b { off = 0 }

unfoldable pub kn_temp_arena_begin : KnTempArena → KnTempArena
kn_temp_arena_begin arena = record {
  active = true;
  blocks = map reset_block arena.blocks;
  cur = first_block arena.blocks;
}

unfoldable pub kn_temp_arena_end : KnTempArena → KnTempArena
kn_temp_arena_end arena = record arena { active = false; cur = first_block arena.blocks }

-- `kn_temp_arena_create` clears the new arena.
unfoldable pub kn_temp_arena_create : KnTempArena
kn_temp_arena_create = record { active = false; blocks = []; cur = none }
