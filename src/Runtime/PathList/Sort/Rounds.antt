-- ===== src/Runtime/PathList/Sort/Rounds.antt =====
-- The rounds of the sort (libs/runtime/src/kn_runtime.c, the bodies of the loops of
-- rt_path_list_sort).
use kinal.Prelude.{
  ℕ, zero, suc, ◌+◌, ◌≤◌, ◌<◌, Bool, List, Bytes, length, ◌==◌, ◌≡◌, ◌≢◌, refl, sym, ap, subst, ◌∙◌,
  arith, Bool-cases, ==_iff, inl, inr,
}
use kinal.Runtime.PathList.{item, swap, sift_down, build_heap}
use kinal.Runtime.PathList.Compare.{Le, Le_refl, Le_trans}
use kinal.Runtime.PathList.Sift.{parent, IsHeapFrom, DownInv, Sifted, sift_down-Sifted}
use kinal.Runtime.PathList.Swap.{passing, length-swap, item-swap, passing-swap}

-- Each path is not behind the next.
abbrev pub IsSorted : List Bytes → Type 0
IsSorted xs = (k : ℕ) → k + 1 < length xs → Le (item xs k) (item xs (k + 1))

-- A list of the same length in which as many paths pass any test.
pub record Rearranged (a b : List Bytes) : Type 0 where
  pub size : length b ≡ length a
  pub passes : (test : Bytes → Bool) → passing test b ≡ passing test a

pub Rearranged-trans : (a b c : List Bytes) → Rearranged a b → Rearranged b c → Rearranged a c
Rearranged-trans a b c p q = record {
  size = q.size ∙ p.size;
  passes = λ test. q.passes test ∙ p.passes test;
}

-- The first loop makes a heap.
pub build_heap-IsHeapFrom :
    (start : ℕ) (a : List Bytes)
    → IsHeapFrom start (length a) a
    → Rearranged a (build_heap start a) × IsHeapFrom 0 (length a) (build_heap start a)
unfolding build_heap
build_heap-IsHeapFrom zero a h = (record { size = refl; passes = λ test. refl }, h)
build_heap-IsHeapFrom (suc start) a h =
    let below : DownInv start (length a) start a = record {
      edges = λ c p q r t. h c p q (omega (arith, r, t));
      bridged = λ c p q r pos lo. absurd (omega (arith, pos, lo));
    } in
    let b = sift_down (length a) a start (length a) in
    let s =
      sift_down-Sifted (length a) start (length a) start a (omega arith) (omega arith) below in
    let (r, heap) =
      build_heap-IsHeapFrom start b (subst (λ n. IsHeapFrom start n b) (sym s.size) s.heap) in
    (
      Rearranged-trans a b (build_heap start b) (record { size = s.size; passes = s.passes }) r,
      subst (λ n. IsHeapFrom 0 n (build_heap start b)) s.size heap,
    )

-- The item at the top of a heap is the largest.
heap_top :
    (fuel count : ℕ) (a : List Bytes)
    → IsHeapFrom 0 count a
    → (j : ℕ) → j < count
    → j < fuel
    → Le (item a j) (item a 0)
heap_top zero count a h j b f = absurd (omega (arith, f))
heap_top (suc fuel) count a h zero b f = Le_refl (item a 0)
heap_top (suc fuel) count a h (suc j) b f =
    Le_trans (item a (suc j)) (item a (parent (suc j))) (item a 0)
      (h (suc j) (omega arith) b (omega arith))
      (heap_top fuel count a h (parent (suc j)) (omega (arith, b)) (omega (arith, f)))

-- The items from `end` on are in order and behind the heap in front of them.
pub record Parted (end : ℕ) (a : List Bytes) : Type 0 where
  pub within : end ≤ length a
  pub heap : IsHeapFrom 0 end a
  pub order : (k : ℕ) → end ≤ k → k + 1 < length a → Le (item a k) (item a (k + 1))
  pub apart : (j k : ℕ) → j < end → end ≤ k → k < length a → Le (item a j) (item a k)

-- One round: the top goes behind the heap.
module _ (end : ℕ) (a : List Bytes) (v : Parted (suc end) a) (pos : 0 < end) where
  first_in : 0 < length a
  first_in = omega (arith, v.within)

  last_in : end < length a
  last_in = omega (arith, v.within)

  abbrev moved : List Bytes
  moved = swap a 0 end

  at_end : item moved end ≡ item a 0
  at_end = item-swap a 0 end first_in last_in end ∙ ground (arith, pos)

  at_front : item moved 0 ≡ item a end
  at_front = item-swap a 0 end first_in last_in 0 ∙ ground (arith, pos)

  elsewhere : (k : ℕ) → 0 < k → k ≢ end → item moved k ≡ item a k
  elsewhere k p q = item-swap a 0 end first_in last_in k ∙ ground (arith, p, q)

  moved-DownInv : DownInv 0 end 0 moved
  moved-DownInv = record {
    edges = λ c p q r t.
        let low = elsewhere c p (λ w. absurd (omega (arith, w, q))) in
        let up = elsewhere (parent c) (omega (arith, t)) (λ w. absurd (omega (arith, w, q))) in
        rw low (rw up (v.heap c p (omega (arith, q)) (omega arith)));
    bridged = λ c p q r z lo. absurd (omega (arith, z));
  }

  abbrev sifted : List Bytes
  sifted = sift_down (length a) moved 0 end

  sifted-Sifted : Sifted 0 end moved sifted
  sifted-Sifted =
      sift_down-Sifted (length a) 0 end 0 moved
        (omega (arith, length-swap a 0 end first_in last_in, last_in)) (omega (arith, last_in))
        moved-DownInv

  -- What stands behind the heap now.
  pub behind : (k : ℕ) → end < k → item sifted k ≡ item a k
  behind k h =
      sifted-Sifted.kept k (omega (arith, h))
      ∙ elsewhere k (omega (arith, h)) (λ w. absurd (omega (arith, w, h)))

  top_at : item sifted end ≡ item a 0
  top_at = sifted-Sifted.kept end (omega arith) ∙ at_end

  source : (j : ℕ) → j < end → (i : ℕ) × (i < suc end) × (item sifted j ≡ item a i)
  source j h =
      let (i, hi, e) = sifted-Sifted.from j h in
      elim (Bool-cases (i == 0)) [
        | inl z ↦ (end, omega arith, e ∙ ap (item moved) ((==_iff i 0).0 z) ∙ at_front)
        | inr z ↦ (
          i,
          omega (arith, hi),
          e ∙ elsewhere i (ground (arith, z)) (λ w. absurd (omega (arith, w, hi))),
        )
      ]

  longer : length sifted ≡ length a
  longer = sifted-Sifted.size ∙ length-swap a 0 end first_in last_in

  pub round-Parted : Parted end sifted
  round-Parted = record {
    within = omega (arith, last_in, longer);
    heap = sifted-Sifted.heap;
    order = λ k lo hi.
        let hi' : k + 1 < length a = omega (arith, hi, longer) in
        elim (Bool-cases (k == end)) [
          | inl e ↦
              let here : k ≡ end = (==_iff k end).0 e in
              let next = behind (k + 1) (omega (arith, lo)) in
              rw (ap (item sifted) here ∙ top_at)
                (rw next (v.apart 0 (k + 1) (omega arith) (omega (arith, lo)) hi'))
          | inr e ↦
              let past : end < k = ground (arith, lo, e) in
              rw (behind k past)
                (rw (behind (k + 1) (omega (arith, lo))) (v.order k (omega (arith, past)) hi'))
        ];
    apart = λ j k hj lo hi.
        let (i, hi', e) = source j hj in
        elim (Bool-cases (k == end)) [
          | inl q ↦
              let here : k ≡ end = (==_iff k end).0 q in
              rw e (
                rw (ap (item sifted) here ∙ top_at)
                  (heap_top (suc end) (suc end) a v.heap i hi' hi'))
          | inr q ↦
              let past : end < k = ground (arith, lo, q) in
              rw e (
                rw (behind k past)
                  (v.apart i k hi' (omega (arith, past)) (omega (arith, hi, longer))))
        ];
  }

  pub round-Rearranged : Rearranged a sifted
  round-Rearranged = record {
    size = longer;
    passes = λ test. sifted-Sifted.passes test ∙ passing-swap a 0 end first_in last_in test;
  }
