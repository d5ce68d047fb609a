-- ===== src/Arena/Disjoint.antt =====
-- Until the arena is begun again, no two allocations from it overlap (apps/kinal/src/kn_util.c).
use kinal.Arena.Blocks.{
  limit, AreBlocks, off_at, Allocates, failed, given, temp_arena_alloc-Allocates, nat-cases,
}
use kinal.Arena.{KnTempArena, Region, header_size, temp_arena_alloc, kn_temp_arena_end}
use kinal.Prelude.{
  ℕ, ◌+◌, ◌%◌, ◌≤◌, Bool, Option, none, some, List, [], ◌∷◌, All, ◌≡◌, ◌≢◌, ap, arith, ◌⊎◌, inl,
  inr,
}

-- A call on the arena between two begins: an allocation, with what the heap gives it, or an end.
pub data Call : Type 0 where
  alloc : Bool → Bool → ℕ → Call
  finish : Call

abbrev pub IsSmall : Call → Type 0
IsSmall (Call.alloc has_heap has_memory n) = n + 24 ≤ limit
IsSmall Call.finish = Unit

abbrev add_region : Option Region → List Region × KnTempArena → List Region × KnTempArena
add_region none r = r
add_region (some region) (regions, arena) = (region ∷ regions, arena)

-- The regions that some calls hand out, and the arena behind them.
unfoldable pub run : List Call → KnTempArena → List Region × KnTempArena
run [] arena = ([], arena)
run (Call.alloc has_heap has_memory n ∷ calls) arena =
    let (region, later) = temp_arena_alloc has_heap has_memory n arena in
    add_region region (run calls later)
run (Call.finish ∷ calls) arena = run calls (kn_temp_arena_end arena)

abbrev pub Apart : Region → Region → Type 0
Apart r s = (r.block ≢ s.block) ⊎ (r.start + r.size ≤ s.start) ⊎ (s.start + s.size ≤ r.start)

abbrev pub AllApart : List Region → Type 0
AllApart [] = Unit
AllApart (r ∷ rs) = All (Apart r) rs × AllApart rs

-- A region between what two arenas have in use.
abbrev pub Between : KnTempArena → KnTempArena → Region → Type 0
Between arena later r =
    (off_at arena r.block + header_size ≤ r.start)
    × (r.start + r.size ≤ off_at later r.block)
    × (r.start % 8 ≡ 0)

pub record Runs (arena : KnTempArena) (r : List Region × KnTempArena) : Type 0 where
  pub blocks : AreBlocks r.1.blocks
  pub apart : AllApart r.0
  pub between : All (Between arena r.1) r.0
  pub grows : (j : ℕ) → off_at arena j ≤ off_at r.1 j

Between-earlier :
    (arena later final : KnTempArena) (rs : List Region)
    → ((j : ℕ) → off_at arena j ≤ off_at later j)
    → All (Between later final) rs
    → All (Between arena final) rs
Between-earlier arena later final [] g h = tt
Between-earlier arena later final (r ∷ rs) g ((a, b, c), h) =
    ((omega (arith, g r.block, a), b, c), Between-earlier arena later final rs g h)

Between-Apart :
    (later final : KnTempArena) (r : Region) (rs : List Region)
    → r.start + r.size ≤ off_at later r.block
    → All (Between later final) rs
    → All (Apart r) rs
Between-Apart later final r [] h a = tt
Between-Apart later final r (s ∷ rs) h ((a, b, c), d) = (
  elim (nat-cases r.block s.block) [
    | inl e ↦ inr (inl (omega (arith, h, a, ap (off_at later) e)))
    | inr d ↦ inl d
  ],
  Between-Apart later final r rs h d,
)

run_alloc :
    (n : ℕ) (calls : List Call) (arena : KnTempArena) (o : Option Region × KnTempArena)
    → AreBlocks arena.blocks
    → Allocates n arena o
    → (AreBlocks o.1.blocks → Runs o.1 (run calls o.1))
    → Runs arena (add_region o.0 (run calls o.1))
run_alloc n calls arena _ v failed rest = rest v
run_alloc n calls arena _ v (given {r = r} {later = later} w s at al e g) rest =
    let q = rest w in
    record {
      blocks = q.blocks;
      apart = (Between-Apart later (run calls later).1 r _ e q.between, q.apart);
      between = (
        (omega (arith, at), omega (arith, e, q.grows r.block), al),
        Between-earlier arena later (run calls later).1 _ g q.between,
      );
      grows = λ j. omega (arith, g j, q.grows j);
    }

run-Runs :
    (calls : List Call) (arena : KnTempArena)
    → AreBlocks arena.blocks
    → All IsSmall calls
    → Runs arena (run calls arena)
unfolding run kn_temp_arena_end
run-Runs [] arena v h = record { blocks = v; apart = tt; between = tt; grows = λ j. omega arith }
run-Runs (Call.finish ∷ calls) arena v (_, h) =
    let q = run-Runs calls (kn_temp_arena_end arena) v h in
    record { blocks = q.blocks; apart = q.apart; between = q.between; grows = q.grows }
run-Runs (Call.alloc a b n ∷ calls) arena v (small, h) =
    run_alloc n calls arena (temp_arena_alloc a b n arena) v
      (temp_arena_alloc-Allocates a b n arena v small)
      (λ w. run-Runs calls (temp_arena_alloc a b n arena).1 w h)

-- From an arena whose blocks are well formed, no two of the regions that allocations of at most 2
-- ^ 62 - 24 bytes hand out until the next begin overlap, whatever the heap gives and wherever the
-- arena is ended between them.
pub run-AllApart :
    (calls : List Call) (arena : KnTempArena)
    → AreBlocks arena.blocks
    → All IsSmall calls
    → AllApart (run calls arena).0
run-AllApart calls arena v h = (run-Runs calls arena v h).apart

-- From an arena whose blocks are well formed, each region that an allocation of at most 2 ^ 62 -
-- 24 bytes hands out until the next begin starts at a multiple of 8, with its header behind what
-- its block had in use at first, and ends inside what the block has in use at last.
pub run-Between :
    (calls : List Call) (arena : KnTempArena)
    → AreBlocks arena.blocks
    → All IsSmall calls
    → All (Between arena (run calls arena).1) (run calls arena).0
run-Between calls arena v h = (run-Runs calls arena v h).between
