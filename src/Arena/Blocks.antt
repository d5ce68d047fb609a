-- ===== src/Arena/Blocks.antt =====
-- The blocks of an arena, and what an allocation does to them (apps/kinal/src/kn_util.c,
-- temp_arena_alloc).
use kinal.Arena.{
  KnArenaBlock, KnTempArena, Region, wrap, kn_align8, header_size, payload, total_size,
  search_block, no_block, advance_block, new_block, start_block, take_region, temp_arena_alloc,
}
use kinal.Prelude.{
  ℕ, zero, suc, ◌+◌, ◌%◌, ◌≤◌, ◌<◌, Bool, true, false, if◌then◌else◌, Option, none, some, List, [],
  ◌∷◌, ◌++◌, length, get_or, ◌==◌, ◌≡◌, ◌≢◌, refl, sym, ap, subst, ◌∙◌, ◌⊎◌, inl, inr, arith,
  Bool-cases, Option-cases, length-append,
}

-- No block, and no request, has more than 2 ^ 62 bytes.
abbrev pub limit : ℕ
limit = 4611686018427387904

-- A block's bytes in use are whole units of 8 inside it.
pub record IsBlock (b : KnArenaBlock) : Type 0 where
  pub off_le : b.off ≤ b.cap
  pub cap_le : b.cap ≤ limit
  pub aligned : b.off % 8 ≡ 0

-- What is reserved for a request: its header and it, rounded up to a multiple of 8.
total_size_lem :
    (n : ℕ)
    → n + 24 ≤ limit
    → (header_size + payload n ≤ total_size n)
      × (total_size n ≤ header_size + payload n + 7)
      × (total_size n % 8 ≡ 0)
unfolding total_size kn_align8
total_size_lem n h = ground arith

search-fits :
    (total skip : ℕ) (bs : List KnArenaBlock) (i : ℕ)
    → search_block total skip bs ≡ some i
    → (i < length bs) × (let b = get_or bs i no_block in wrap (b.off + total) ≤ b.cap)
unfolding search_block
search-fits total skip [] i h = absurd (ground arith)
search-fits total (suc skip) (b ∷ bs) zero h = absurd (ground arith)
search-fits total (suc skip) (b ∷ bs) (suc i) h =
    let inner : search_block total skip bs ≡ some i = ground arith in
    let (p, q) = search-fits total skip bs i inner in (omega (arith, p), q)
search-fits total zero (b ∷ bs) zero h = ground arith
search-fits total zero (b ∷ bs) (suc i) h =
    let inner : search_block total zero bs ≡ some i = ground arith in
    let (p, q) = search-fits total zero bs i inner in (omega (arith, p), q)

advance_block-get :
    (total i j : ℕ) (bs : List KnArenaBlock)
    → i < length bs
    → let b = get_or bs j no_block in
      get_or (advance_block total i bs) j no_block
      ≡ (if i == j then record b { off = wrap (b.off + total) } else b)
unfolding advance_block
advance_block-get total i j [] h = absurd (omega (arith, h))
advance_block-get total zero zero (b ∷ bs) h = refl
advance_block-get total zero (suc j) (b ∷ bs) h = ground arith
advance_block-get total (suc i) zero (b ∷ bs) h = ground arith
advance_block-get total (suc i) (suc j) (b ∷ bs) h =
    let same : (i == j) ≡ (suc i == suc j) = ground arith in
    let b' = get_or bs j no_block in
    advance_block-get total i j bs (omega (arith, h))
    ∙ ap (λ c. if c then record b' { off = wrap (b'.off + total) } else b') same

abbrev pub block_at : List KnArenaBlock → ℕ → KnArenaBlock
block_at bs j = get_or bs j no_block

abbrev pub off_at : KnTempArena → ℕ → ℕ
off_at arena j = (block_at arena.blocks j).off

-- Every place has a block that is one, or no block.
abbrev pub AreBlocks : List KnArenaBlock → Type 0
AreBlocks bs = (j : ℕ) → IsBlock (block_at bs j)

-- What an allocation of `n` bytes gives: nothing, with the arena as it was, or a region behind all
-- that its block had in use, inside what it has in use then.
pub data Allocates (n : ℕ) (arena : KnTempArena) : Option Region × KnTempArena → Type 0 where
  failed : Allocates n arena (none, arena)
  given :
      {r : Region} {later : KnTempArena}
      → AreBlocks later.blocks
      → r.size ≡ payload n
      → r.start ≡ off_at arena r.block + header_size
      → r.start % 8 ≡ 0
      → r.start + r.size ≤ off_at later r.block
      → ((j : ℕ) → off_at arena j ≤ off_at later j)
      → Allocates n arena (some r, later)

advanced-IsBlock :
    (n : ℕ) (b : KnArenaBlock)
    → n + 24 ≤ limit
    → IsBlock b
    → wrap (b.off + total_size n) ≤ b.cap
    → (wrap (b.off + total_size n) ≡ b.off + total_size n)
      × IsBlock (record b { off = wrap (b.off + total_size n) })
advanced-IsBlock n b h v fits =
    let (t, u, w) = total_size_lem n h in
    let small : payload n ≤ n + 1 = ground arith in
    let same : wrap (b.off + total_size n) ≡ b.off + total_size n =
      omega (arith, v.off_le, v.cap_le, u, small, h) in
    (same, record { off_le = fits; cap_le = v.cap_le; aligned = omega (arith, same, v.aligned, w) })

pub nat-cases : (i j : ℕ) → (i ≡ j) ⊎ (i ≢ j)
nat-cases i j = elim (Bool-cases (i == j)) [
  | inl e ↦ inl (ground arith)
  | inr e ↦ inr (ground arith)
]

take_region-Allocates :
    (n i : ℕ) (bs : List KnArenaBlock) (arena : KnTempArena)
    → n + 24 ≤ limit
    → AreBlocks bs
    → i < length bs
    → wrap ((block_at bs i).off + total_size n) ≤ (block_at bs i).cap
    → ((j : ℕ) → (block_at bs j).off ≡ off_at arena j)
    → Allocates n arena (take_region n i bs arena)
unfolding take_region
take_region-Allocates n i bs arena h v l fits same =
    let b = block_at bs i in
    let (w, ok) = advanced-IsBlock n b h (v i) fits in
    let (t, u, x) = total_size_lem n h in
    let bs' = advance_block (total_size n) i bs in
    let here : block_at bs' i ≡ record b { off = wrap (b.off + total_size n) } =
      let e : (i == i) ≡ true = ground arith in
      advance_block-get (total_size n) i i bs l ∙ rw e refl in
    let used : (block_at bs' i).off ≡ b.off + total_size n = ap (λ c. c.off) here ∙ w in
    let other : (j : ℕ) → i ≢ j → block_at bs' j ≡ block_at bs j = λ j d.
      let e : (i == j) ≡ false = ground arith in
      advance_block-get (total_size n) i j bs l ∙ rw e refl in
    given
      (λ j. elim (nat-cases i j) [
        | inl e ↦ subst (λ k. IsBlock (block_at bs' k)) e (subst IsBlock (sym here) ok)
        | inr d ↦ subst IsBlock (sym (other j d)) (v j)
      ])
      refl (omega (arith, same i)) (omega (arith, (v i).aligned)) (omega (arith, used, t))
      (λ j. elim (nat-cases i j) [
        | inl e ↦ subst (λ k. off_at arena k ≤ (block_at bs' k).off) e (omega (arith, used, same i))
        | inr d ↦ omega (arith, ap (λ c. c.off) (other j d), same j)
      ])

-- A block more at the end has nothing in use.
new_block-off :
    (bs : List KnArenaBlock) (cap j : ℕ)
    → (block_at (bs ++ (record { cap = cap; off = 0 } ∷ [])) j).off ≡ (block_at bs j).off
new_block-off [] cap zero = refl
new_block-off [] cap (suc j) = refl
new_block-off (b ∷ bs) cap zero = refl
new_block-off (b ∷ bs) cap (suc j) = new_block-off bs cap j

new_block-AreBlocks :
    (bs : List KnArenaBlock) (cap : ℕ)
    → cap ≤ limit
    → AreBlocks bs
    → AreBlocks (bs ++ (record { cap = cap; off = 0 } ∷ []))
new_block-AreBlocks [] cap h v zero = record { off_le = omega arith; cap_le = h; aligned = refl }
new_block-AreBlocks [] cap h v (suc j) = v j
new_block-AreBlocks (b ∷ bs) cap h v zero = v zero
new_block-AreBlocks (b ∷ bs) cap h v (suc j) = new_block-AreBlocks bs cap h (λ k. v (suc k)) j

new_block-fits :
    (n : ℕ) (bs : List KnArenaBlock)
    → n + 24 ≤ limit
    → let new = block_at (bs ++ (new_block (total_size n) ∷ [])) (length bs) in
      wrap (new.off + total_size n) ≤ new.cap
new_block-fits n [] h =
    let (t, u, x) = total_size_lem n h in
    let small : payload n ≤ n + 1 = ground arith in ground (arith, t, u, small)
new_block-fits n (b ∷ bs) h = new_block-fits n bs h

-- An allocation from an arena whose blocks are blocks.
pub temp_arena_alloc-Allocates :
    (has_heap has_memory : Bool) (n : ℕ) (arena : KnTempArena)
    → AreBlocks arena.blocks
    → n + 24 ≤ limit
    → Allocates n arena (temp_arena_alloc has_heap has_memory n arena)
unfolding temp_arena_alloc
temp_arena_alloc-Allocates false has_memory n arena v h = failed
temp_arena_alloc-Allocates true has_memory n arena v h =
    let bs = arena.blocks in
    elim (Option-cases (search_block (total_size n) (start_block arena.cur) bs)) [
      | inr (i, e) ↦
          let (l, fits) = search-fits _ _ bs i e in
          rw e (take_region-Allocates n i bs arena h v l fits (λ j. refl))
      | inl e ↦ elim (Bool-cases has_memory) [
        | inl m ↦
            let (t, u, x) = total_size_lem n h in
            let small : payload n ≤ n + 1 = ground arith in
            let cap_le : (new_block (total_size n)).cap ≤ limit = ground (arith, u, small) in
            rw (e, m)
              (take_region-Allocates n (length bs) (bs ++ (new_block (total_size n) ∷ [])) arena h
                (new_block-AreBlocks bs (new_block (total_size n)).cap cap_le v)
                (omega (arith, length-append bs (new_block (total_size n) ∷ [])))
                (new_block-fits n bs h) (λ j. new_block-off bs (new_block (total_size n)).cap j))
        | inr m ↦ rw (e, m) failed
      ]
    ]
