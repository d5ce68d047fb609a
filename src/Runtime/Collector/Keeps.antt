-- ===== src/Runtime/Collector/Keeps.antt =====
-- What a collection keeps (libs/runtime/src/kn_runtime.c, __kn_gc_collect).
use kinal.Prelude.{
  ℕ, zero, suc, ◌<◌, Bool, true, false, List, [], ◌∷◌, length, get_or, ◌≡◌, refl, sym, ◌⊎◌, ◌↔◌,
  inl, inr, arith,
}
use kinal.Runtime.Collector.{KnGcBlock, block_at, gc_marks, sweep, gc_collect}
use kinal.Runtime.Collector.Marks.{In}
use kinal.Runtime.Collector.Reach.{Reach, gc_marks-Reach}
use kinal.Runtime.Collector.Search.{IsIndex, Points, found-Points, Points-found}

abbrev pub Kept : KnGcBlock → List KnGcBlock → Type 0
Kept b [] = ⊥
Kept b (c ∷ cs) = (b ≡ c) ⊎ Kept b cs

-- A block that stands at a marked place.
pub record Marked (index : List KnGcBlock) (marks : List Bool) (b : KnGcBlock) : Type 0 where
  pub place : ℕ
  pub inside : place < length index
  pub there : block_at index place ≡ b
  pub mark : get_or marks place false ≡ true

sweep-Marked :
    (index : List KnGcBlock) (marks : List Bool) (b : KnGcBlock)
    → length marks ≡ length index
    → Kept b (sweep index marks)
    → Marked index marks b
unfolding sweep
sweep-Marked [] marks b size k = absurd k
sweep-Marked (c ∷ cs) [] b size k = absurd (omega (arith, size))
sweep-Marked (c ∷ cs) (false ∷ marks) b size k =
    let m = sweep-Marked cs marks b (omega (arith, size)) k in
    record { place = suc m.place; inside = omega (arith, m.inside); there = m.there; mark = m.mark }
sweep-Marked (c ∷ cs) (true ∷ marks) b size (inl e) = record {
  place = 0;
  inside = omega arith;
  there = sym e;
  mark = refl;
}
sweep-Marked (c ∷ cs) (true ∷ marks) b size (inr k) =
    let m = sweep-Marked cs marks b (omega (arith, size)) k in
    record { place = suc m.place; inside = omega (arith, m.inside); there = m.there; mark = m.mark }

Marked-sweep :
    (index : List KnGcBlock) (marks : List Bool) (b : KnGcBlock) (place : ℕ)
    → place < length index
    → block_at index place ≡ b
    → get_or marks place false ≡ true
    → Kept b (sweep index marks)
unfolding sweep
Marked-sweep [] marks b place h e m = absurd (omega (arith, h))
Marked-sweep (c ∷ cs) [] b place h e m = absurd (cc m)
Marked-sweep (c ∷ cs) (false ∷ marks) b zero h e m = absurd (cc m)
Marked-sweep (c ∷ cs) (true ∷ marks) b zero h e m = inl (sym e)
Marked-sweep (c ∷ cs) (false ∷ marks) b (suc place) h e m =
    Marked-sweep cs marks b place (omega (arith, h)) e m
Marked-sweep (c ∷ cs) (true ∷ marks) b (suc place) h e m =
    inr (Marked-sweep cs marks b place (omega (arith, h)) e m)

-- A way to a block: from an address in it among the roots, or in a block to which there is a way.
pub data Way (index : List KnGcBlock) (roots : List ℕ) : ℕ → Type 0 where
  root : {k : ℕ} (p : ℕ) → In p roots → Points index p k → Way index roots k
  step :
      {k : ℕ} (j p : ℕ)
      → Way index roots j
      → In p (block_at index j).words
      → Points index p k
      → Way index roots k

pub record Reached (index : List KnGcBlock) (roots : List ℕ) (b : KnGcBlock) : Type 0 where
  pub place : ℕ
  pub inside : place < length index
  pub there : block_at index place ≡ b
  pub way : Way index roots place

module _ (index : List KnGcBlock) (v : IsIndex index) (roots : List ℕ) where
  Reach-Way : {k : ℕ} → Reach index roots k → Way index roots k
  Reach-Way (Reach.root p i f) = Way.root p i (found-Points index v p _ f)
  Reach-Way (Reach.step j p r i f) = Way.step j p (Reach-Way r) i (found-Points index v p _ f)

  Way-Reach : {k : ℕ} → Way index roots k → Reach index roots k
  Way-Reach (Way.root p i q) = Reach.root p i (Points-found index v p _ q)
  Way-Reach (Way.step j p w i q) = Reach.step j p (Way-Reach w) i (Points-found index v p _ q)

-- Where the blocks of the index stand in the order of their addresses, and apart, a collection
-- keeps a block exactly when a way leads to it: from a root that is an address in it, or from a word
-- of a block that has a way.
pub gc_collect-Reached :
    (index : List KnGcBlock)
    → IsIndex index
    → (roots : List ℕ) (b : KnGcBlock)
    → Kept b (gc_collect index roots).blocks ↔ Reached index roots b
unfolding gc_collect
gc_collect-Reached index v roots b =
    let marking = gc_marks index roots in
    let (_, size, reach) = gc_marks-Reach index roots in
    (
      (λ k.
          let m = sweep-Marked index marking.marks b size k in
          record {
            place = m.place;
            inside = m.inside;
            there = m.there;
            way = Reach-Way index v roots ((reach m.place).0 m.mark);
          }),
      (λ r.
          Marked-sweep index marking.marks b r.place r.inside r.there
            ((reach r.place).1 (Way-Reach index v roots r.way))),
    )
