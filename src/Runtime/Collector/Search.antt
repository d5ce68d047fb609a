-- ===== src/Runtime/Collector/Search.antt =====
-- The search for the block that an address stands in (libs/runtime/src/kn_runtime.c,
-- gc_find_indexed_block).
use kinal.Prelude.{
  ℕ, zero, suc, ◌+◌, ◌-◌, ◌/◌, ◌≤◌, ◌<◌, true, false, some, List, length, ltb, leb, ◌==◌, ◌≡◌, refl,
  sym, ap, subst, ◌∙◌, arith, Bool-cases, inl, inr,
}
use kinal.Runtime.Collector.{KnGcBlock, block_at, search_start, gc_find_indexed_block}

-- The blocks of an index stand in the order of their addresses, and apart.
pub record IsIndex (index : List KnGcBlock) : Type 0 where
  pub apart :
      (i j : ℕ)
      → i < j
      → j < length index
      → (block_at index i).ptr + (block_at index i).size ≤ (block_at index j).ptr

-- An address that is not null in the block at a place.
pub record Points (index : List KnGcBlock) (p k : ℕ) : Type 0 where
  pub some_address : 0 < p
  pub inside : k < length index
  pub from : (block_at index k).ptr ≤ p
  pub before : p < (block_at index k).ptr + (block_at index k).size

module _ (index : List KnGcBlock) (v : IsIndex index) (value : ℕ) where
  record Bounds (low high : ℕ) : Type 0 where
    order : low ≤ high
    within : high ≤ length index
    below : (i : ℕ) → i < low → (block_at index i).ptr ≤ value
    above : (i : ℕ) → high ≤ i → i < length index → value < (block_at index i).ptr

  ptr_le : (i j : ℕ) → i ≤ j → j < length index → (block_at index i).ptr ≤ (block_at index j).ptr
  ptr_le i j le h = elim (Bool-cases (ltb i j)) [
    | inl e ↦ omega (arith, v.apart i j (ground (arith, e)) h)
    | inr e ↦
        let same : i ≡ j = ground (arith, e, le) in
        subst (λ k. (block_at index k).ptr ≤ (block_at index j).ptr) (sym same) (omega arith)
  ]

  search_start-Bounds :
      (n low high : ℕ)
      → high - low ≤ n
      → Bounds low high
      → Bounds (search_start n index value low high) (search_start n index value low high)
  unfolding search_start
  search_start-Bounds zero low high f b =
      let same : low ≡ high = omega (arith, f, b.order) in
      record {
        order = omega arith;
        within = omega (arith, b.order, b.within);
        below = b.below;
        above = λ i le h. b.above i (omega (arith, le, same)) h;
      }
  search_start-Bounds (suc n) low high f b =
      let middle = low + (high - low) / 2 in
      elim (Bool-cases (ltb low high)) [
        | inr e ↦
            let same : low ≡ high = ground (arith, e, b.order) in
            rw e (record {
              order = omega arith;
              within = omega (arith, b.order, b.within);
              below = b.below;
              above = λ i le h. b.above i (omega (arith, le, same)) h;
            })
        | inl e ↦
            let lt : low < high = ground (arith, e) in
            let in_index : middle < length index = omega (arith, lt, b.within) in
            elim (Bool-cases (leb (block_at index middle).ptr value)) [
              | inl d ↦
                  let le : (block_at index middle).ptr ≤ value = ground (arith, d) in
                  rw e (
                    rw d (
                      search_start-Bounds n (middle + 1) high (omega (arith, f, lt)) (record {
                        order = omega (arith, lt);
                        within = b.within;
                        below =
                            λ i h. omega (arith, ptr_le i middle (omega (arith, h)) in_index, le);
                        above = b.above;
                      })))
              | inr d ↦
                  let gt : value < (block_at index middle).ptr = ground (arith, d) in
                  rw e (
                    rw d (
                      search_start-Bounds n low middle (omega (arith, f, lt)) (record {
                        order = omega arith;
                        within = omega (arith, in_index);
                        below = b.below;
                        above = λ i le h. omega (arith, ptr_le middle i le h, gt);
                      })))
            ]
      ]

  abbrev start : ℕ
  start = search_start (length index) index value 0 (length index)

  start-Bounds : Bounds start start
  start-Bounds = search_start-Bounds (length index) 0 (length index) (omega arith) (record {
    order = omega arith;
    within = omega arith;
    below = λ i h. absurd (omega (arith, h));
    above = λ i le h. absurd (omega (arith, le, h));
  })

  pub found-Points : (k : ℕ) → gc_find_indexed_block index value ≡ some k → Points index value k
  unfolding gc_find_indexed_block
  found-Points k h =
      let at : start - 1 ≡ k = ground (arith, h) in
      let some_value : 0 < value = ground (arith, h) in
      let some_start : 0 < start = ground (arith, h) in
      let low : (block_at index (start - 1)).ptr ≤ value = ground (arith, h) in
      let high : value - (block_at index (start - 1)).ptr < (block_at index (start - 1)).size =
        ground (arith, h) in
      let b = start-Bounds in
      subst (Points index value) at (record {
        some_address = some_value;
        inside = omega (arith, some_start, b.within);
        from = low;
        before = omega (arith, low, high);
      })

  -- The tests of the search at the place in front of `start`.
  found_last :
      Points index value (start - 1)
      → 0 < start
      → gc_find_indexed_block index value ≡ some (start - 1)
  unfolding gc_find_indexed_block
  found_last q pos =
      let some_value : (value == 0) ≡ false = ground (arith, q.some_address) in
      let some_start : (start == 0) ≡ false = ground (arith, pos) in
      let low : leb (block_at index (start - 1)).ptr value ≡ true = ground (arith, q.from) in
      let high : ltb (value - (block_at index (start - 1)).ptr) (block_at index (start - 1)).size
          ≡ true =
        ground (arith, q.from, q.before) in
      rw some_value (rw some_start (rw low (rw high refl)))

  pub Points-found : (k : ℕ) → Points index value k → gc_find_indexed_block index value ≡ some k
  Points-found k q =
      let b = start-Bounds in
      let first : k < start = elim (Bool-cases (ltb k start)) [
        | inl e ↦ ground (arith, e)
        | inr e ↦ absurd (omega (arith, b.above k (ground (arith, e)) q.inside, q.from))
      ] in
      let last : k ≡ start - 1 = elim (Bool-cases (ltb k (start - 1))) [
        | inr e ↦ ground (arith, e, first)
        | inl e ↦
            let less : k < start - 1 = ground (arith, e) in
            absurd (
              omega (
                arith,
                v.apart k (start - 1) less (omega (arith, first, b.within)),
                b.below (start - 1) (omega (arith, first)),
                q.before,
              ))
      ] in
      found_last (subst (Points index value) last q) (omega (arith, first)) ∙ ap some (sym last)
