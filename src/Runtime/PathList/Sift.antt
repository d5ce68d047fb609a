-- ===== src/Runtime/PathList/Sift.antt =====
-- One item that goes down a heap of paths (libs/runtime/src/kn_runtime.c,
-- rt_path_list_sift_down). A heap has the larger items at the lower places: `parent c` is the place
-- above `c`.
pub mod Largest
pub use Largest.{parent, IsHeapFrom, DownInv}
use kinal.Runtime.PathList.Sift.Largest.{largest-IsLargest, swap-DownInv}
use kinal.Prelude.{
  ℕ, zero, suc, ◌+◌, ◌-◌, ◌*◌, ◌/◌, ◌≤◌, ◌<◌, Bool, true, false, if◌then◌else◌, List, [], ◌∷◌,
  Bytes, length, ltb, leb, ◌==◌, ◌≡◌, ◌≢◌, refl, sym, ap, subst, ◌∙◌, arith, Bool-cases, ==_iff,
  inl, inr, ◌⊎◌,
}
use kinal.Runtime.PathList.{item, swap, is_less, larger, largest, sift_down}
use kinal.Runtime.PathList.Compare.{Le, Le-is_less, Le_refl, Le_trans}
use kinal.Runtime.PathList.Swap.{passing, length-swap, item-swap, passing-swap}

-- What a sift does to the first `count` items: the rest stays, and the same items pass any test.
pub record Sifted (lo count : ℕ) (a b : List Bytes) : Type 0 where
  pub heap : IsHeapFrom lo count b
  pub size : length b ≡ length a
  pub kept : (k : ℕ) → count ≤ k → item b k ≡ item a k
  pub from : (k : ℕ) → k < count → (j : ℕ) × (j < count) × (item b k ≡ item a j)
  pub passes : (test : Bytes → Bool) → passing test b ≡ passing test a

-- The place that is largest is the root itself: nothing is out of order.
settled :
    (lo count i : ℕ) (a : List Bytes)
    → DownInv lo count i a
    → ((c : ℕ) → 0 < c → c < count → parent c ≡ i → Le (item a c) (item a i))
    → Sifted lo count a a
settled lo count i a v h = record {
  heap = λ c p q r. elim (Bool-cases (parent c == i)) [
    | inl e ↦
        let up = (==_iff (parent c) i).0 e in
        subst (λ k. Le (item a c) (item a k)) (sym up) (h c p q up)
    | inr e ↦ v.edges c p q r (λ w. absurd (ground (arith, e, w)))
  ];
  size = refl;
  kept = λ k le. refl;
  from = λ k lt. (k, lt, refl);
  passes = λ test. refl;
}

-- What a sift does behind an exchange.
module _ (lo count i m : ℕ) (a b : List Bytes) (hi : i < count) (hm : m < count)
    (size : count ≤ length a) (s : Sifted lo count (swap a i m) b) where
  bound_i : i < length a
  bound_i = omega (arith, hi, size)

  bound_m : m < length a
  bound_m = omega (arith, hm, size)

  source : (k : ℕ) → k < count → (j : ℕ) × (j < count) × (item (swap a i m) k ≡ item a j)
  source k h = elim (Bool-cases (m == k)) [
    | inl e ↦ (i, hi, item-swap a i m bound_i bound_m k ∙ rw e refl)
    | inr e ↦ elim (Bool-cases (i == k)) [
      | inl d ↦ (m, hm, item-swap a i m bound_i bound_m k ∙ rw e (rw d refl))
      | inr d ↦ (k, h, item-swap a i m bound_i bound_m k ∙ rw e (rw d refl))
    ]
  ]

  swap-Sifted : Sifted lo count a b
  swap-Sifted = record {
    heap = s.heap;
    size = s.size ∙ length-swap a i m bound_i bound_m;
    kept = λ k le. s.kept k le ∙ ground (arith, item-swap a i m bound_i bound_m k, le, hi, hm);
    from =
        λ k h. let (j, hj, e) = s.from k h in let (j', hj', e') = source j hj in (j', hj', e ∙ e');
    passes = λ test. s.passes test ∙ passing-swap a i m bound_i bound_m test;
  }

lower :
    (k root count : ℕ)
    → (k == root) ≡ false
    → (k ≡ root) ⊎ ((root < k) × (k < count) × (parent k ≡ root))
    → (root < k) × (k < count) × (parent k ≡ root)
lower k root count h (inl e) = absurd (ground (arith, h, e))
lower k root count h (inr p) = p

-- With as many rounds as there are places from the root on, a sift makes a heap.
pub sift_down-Sifted :
    (n lo count root : ℕ) (a : List Bytes)
    → count ≤ length a
    → count - root ≤ n
    → DownInv lo count root a
    → Sifted lo count a (sift_down n a root count)
unfolding sift_down
sift_down-Sifted zero lo count root a size h v =
    settled lo count root a v (λ c p q r. absurd (ground (arith, p, q, r, h)))
sift_down-Sifted (suc n) lo count root a size h v = elim (Bool-cases (leb count (root * 2 + 1))) [
  | inl e ↦ rw e (settled lo count root a v (λ c p q r. absurd (ground (arith, p, q, r, e))))
  | inr e ↦
      let l = largest a root count in
      let big = largest-IsLargest a root count (ground (arith, e)) in
      elim (Bool-cases (l == root)) [
        | inl same ↦
            let at : l ≡ root = (==_iff l root).0 same in
            rw e (
              rw same (
                settled lo count root a v
                  (λ c p q r. subst (λ k. Le (item a c) (item a k)) at (big.over_child c p q r))))
        | inr other ↦
            let (below, inside, under) = lower l root count other big.place in
            let hi : root < count = omega (arith, below, inside) in
            let v' = swap-DownInv lo count root l a v size big below inside under in
            let longer =
              length-swap a root l (omega (arith, hi, size)) (omega (arith, inside, size)) in
            rw e (
              rw other (
                swap-Sifted lo count root l a (sift_down n (swap a root l) l count) hi inside size (
                  sift_down-Sifted n lo count l (swap a root l) (omega (arith, size, longer))
                    (omega (arith, h, below, inside)) v')))
      ]
]
