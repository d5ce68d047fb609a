-- ===== src/Runtime/PathList/Sort.antt =====
-- The sort of a list of paths (libs/runtime/src/kn_runtime.c, rt_path_list_sort).
pub mod Rounds
pub use Rounds.{IsSorted, Rearranged}
use kinal.Runtime.PathList.Sort.Rounds.{
  Rearranged-trans, build_heap-IsHeapFrom, Parted, behind, round-Parted, round-Rearranged,
}
use kinal.Prelude.{
  ℕ, zero, suc, ◌+◌, ◌-◌, ◌*◌, ◌/◌, ◌≤◌, ◌<◌, Bool, true, false, if◌then◌else◌, List, [], ◌∷◌,
  Bytes, length, ltb, leb, ◌==◌, ◌≡◌, ◌≢◌, refl, sym, ap, subst, ◌∙◌, arith, Bool-cases, ==_iff,
  inl, inr,
}
use kinal.Runtime.PathList.{
  KnNativePathList, item, swap, sift_down, build_heap, take_largest, path_list_sort,
}
use kinal.Runtime.PathList.Compare.{Le, Le_refl, Le_trans}
use kinal.Runtime.PathList.Sift.{parent, IsHeapFrom, DownInv, Sifted, sift_down-Sifted}
use kinal.Runtime.PathList.Swap.{passing, length-swap, item-swap, passing-swap}

take_largest-IsSorted :
    (end : ℕ) (a : List Bytes)
    → Parted end a
    → Rearranged a (take_largest end a) × IsSorted (take_largest end a)
unfolding take_largest
take_largest-IsSorted zero a v =
    (record { size = refl; passes = λ test. refl }, λ k h. v.order k (omega arith) h)
take_largest-IsSorted (suc zero) a v = take_largest-IsSorted zero a (record {
  within = omega arith;
  heap = λ c p q r. absurd (omega (arith, q));
  order = λ k lo hi. elim (Bool-cases (k == 0)) [
    | inl e ↦
        subst (λ t. Le (item a t) (item a (t + 1))) (sym ((==_iff k 0).0 e))
          (v.apart 0 1 (omega arith) (omega arith) (ground (arith, hi, e)))
    | inr e ↦ v.order k (ground (arith, e)) hi
  ];
  apart = λ j k hj lo hi. absurd (omega (arith, hj));
})
take_largest-IsSorted (suc (suc end)) a v =
    let some_end : (suc end == 0) ≡ false = ground arith in
    let pos : 0 < suc end = omega arith in
    let b = sift_down (length a) (swap a 0 (suc end)) 0 (suc end) in
    let (r, sorted) = take_largest-IsSorted (suc end) b (round-Parted (suc end) a v pos) in
    rw some_end (
      Rearranged-trans a b (take_largest (suc end) b) (round-Rearranged (suc end) a v pos) r,
      sorted,
    )

-- The sort leaves the same paths, in order: as many of them pass any test, and none is behind the
-- next in the order of their bytes. The rest of the list is as it was.
pub path_list_sort-IsSorted :
    (paths : KnNativePathList)
    → IsSorted (path_list_sort paths).items
      × Rearranged paths.items (path_list_sort paths).items
      × ((path_list_sort paths).cap ≡ paths.cap)
      × ((path_list_sort paths).cursor ≡ paths.cursor)
unfolding path_list_sort
path_list_sort-IsSorted paths =
    let a = paths.items in
    let n = length a in
    elim (Bool-cases (ltb n 2)) [
      | inl e ↦ rw e (
        (λ k h. absurd (ground (arith, e, h))),
        record { size = refl; passes = λ test. refl },
        refl,
        refl,
      )
      | inr e ↦
          let leaves : IsHeapFrom (n / 2) n a = λ c p q r. absurd (omega (arith, p, q, r)) in
          let (built, heap) = build_heap-IsHeapFrom (n / 2) a leaves in
          let b = build_heap (n / 2) a in
          let parted : Parted n b = record {
            within = omega (arith, built.size);
            heap = heap;
            order = λ k lo hi. absurd (omega (arith, lo, hi, built.size));
            apart = λ j k hj lo hi. absurd (omega (arith, lo, hi, built.size));
          } in
          let (taken, sorted) = take_largest-IsSorted n b parted in
          rw e (sorted, Rearranged-trans a b (take_largest n b) built taken, refl, refl)
    ]
