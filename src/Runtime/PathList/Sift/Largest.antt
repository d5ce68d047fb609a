-- ===== src/Runtime/PathList/Sift/Largest.antt =====
-- An item that is exchanged with the largest below it (libs/runtime/src/kn_runtime.c, the body of
-- rt_path_list_sift_down).
use kinal.Prelude.{
  ℕ, ◌+◌, ◌-◌, ◌*◌, ◌/◌, ◌≤◌, ◌<◌, List, Bytes, length, ltb, ◌==◌, ◌≡◌, ◌≢◌, refl, sym, ap, subst,
  ◌∙◌, arith, Bool-cases, ==_iff, inl, inr, ◌⊎◌,
}
use kinal.Runtime.PathList.{item, swap, is_less, larger, largest}
use kinal.Runtime.PathList.Compare.{Le, Le-is_less, Le_refl, Le_trans}
use kinal.Runtime.PathList.Swap.{item-swap}

abbrev pub parent : ℕ → ℕ
parent c = (c - 1) / 2

-- No place from `lo` on has a larger item below it, among the first `count`.
abbrev pub IsHeapFrom : ℕ → ℕ → List Bytes → Type 0
IsHeapFrom lo count a =
    (c : ℕ) → 0 < c → c < count → lo ≤ parent c → Le (item a c) (item a (parent c))

-- Only the items right below `i` may be larger than the one above them.
pub record DownInv (lo count i : ℕ) (a : List Bytes) : Type 0 where
  pub edges :
      (c : ℕ) → 0 < c → c < count → lo ≤ parent c → parent c ≢ i → Le (item a c) (item a (parent c))
  pub bridged :
      (c : ℕ)
      → 0 < c
      → c < count
      → parent c ≡ i
      → 0 < i
      → lo ≤ parent i
      → Le (item a c) (item a (parent i))

record Larger (a : List Bytes) (i j k : ℕ) : Type 0 where
  pub place : (k ≡ i) ⊎ (k ≡ j)
  pub first : Le (item a i) (item a k)
  pub second : Le (item a j) (item a k)

larger-Larger : (a : List Bytes) (i j : ℕ) → Larger a i j (larger a i j)
unfolding larger
larger-Larger a i j = elim (Bool-cases (is_less (item a i) (item a j))) [
  | inl e ↦ rw e (record {
    place = inr refl;
    first = Le-is_less (item a i) (item a j) e;
    second = Le_refl (item a j);
  })
  | inr e ↦
      rw e
        (record { place = inl refl; first = Le_refl (item a i); second = record { in_order = e } })
]

-- The largest of an item and those below it.
pub record IsLargest (a : List Bytes) (root count k : ℕ) : Type 0 where
  pub place : (k ≡ root) ⊎ ((root < k) × (k < count) × (parent k ≡ root))
  pub over : Le (item a root) (item a k)
  pub over_child : (c : ℕ) → 0 < c → c < count → parent c ≡ root → Le (item a c) (item a k)

pub largest-IsLargest :
    (a : List Bytes) (root count : ℕ)
    → root * 2 + 1 < count
    → IsLargest a root count (largest a root count)
unfolding largest
largest-IsLargest a root count h =
    let child = root * 2 + 1 in
    let l = larger a root child in
    let one = larger-Larger a root child in
    elim (Bool-cases (ltb (child + 1) count)) [
      | inl e ↦
          let two = larger-Larger a l (child + 1) in
          let k = larger a l (child + 1) in
          rw e (record {
            place = ground (arith, one.place, two.place, e, h);
            over = Le_trans (item a root) (item a l) (item a k) one.first two.first;
            over_child = λ c p q r. elim (Bool-cases (c == child)) [
              | inl s ↦
                  let at : c ≡ child = (==_iff c child).0 s in
                  subst (λ t. Le (item a t) (item a k)) (sym at)
                    (Le_trans (item a child) (item a l) (item a k) one.second two.first)
              | inr s ↦
                  let at : c ≡ child + 1 = ground (arith, p, r, s) in
                  subst (λ t. Le (item a t) (item a k)) (sym at) two.second
            ];
          })
      | inr e ↦ rw e (record {
        place = ground (arith, one.place, h);
        over = one.first;
        over_child = λ c p q r.
            let at : c ≡ child = ground (arith, p, q, r, e) in
            subst (λ t. Le (item a t) (item a l)) (sym at) one.second;
      })
    ]

Le_eq : {p q p' q' : Bytes} → p ≡ p' → q ≡ q' → Le p' q' → Le p q
Le_eq e f h = rw e (rw f h)

-- An item is exchanged with the largest of those below it.
module _ (lo count i m : ℕ) (a : List Bytes) (v : DownInv lo count i a) (size : count ≤ length a)
    (big : IsLargest a i count m) (below : i < m) (inside : m < count) (under : parent m ≡ i) where
  at_m : item (swap a i m) m ≡ item a i
  at_m =
      ground (
        arith,
        item-swap a i m (omega (arith, below, inside, size)) (omega (arith, inside, size)) m,
      )

  at_i : item (swap a i m) i ≡ item a m
  at_i = ground (
    arith,
    item-swap a i m (omega (arith, below, inside, size)) (omega (arith, inside, size)) i,
    below,
  )

  elsewhere : (k : ℕ) → m ≢ k → i ≢ k → item (swap a i m) k ≡ item a k
  elsewhere k p q =
      ground (
        arith,
        item-swap a i m (omega (arith, below, inside, size)) (omega (arith, inside, size)) k,
      )

  swap_edge :
      (c : ℕ)
      → 0 < c
      → c < count
      → lo ≤ parent c
      → parent c ≢ m
      → Le (item (swap a i m) c) (item (swap a i m) (parent c))
  swap_edge c p q r t = elim (Bool-cases (parent c == i)) [
    | inl e ↦
        let up : parent c ≡ i = (==_iff (parent c) i).0 e in
        let top = ap (item (swap a i m)) up ∙ at_i in
        elim (Bool-cases (c == m)) [
          | inl s ↦ Le_eq (ap (item (swap a i m)) ((==_iff c m).0 s) ∙ at_m) top big.over
          | inr s ↦
              let apart : i ≢ c = ground (arith, p, up) in
              Le_eq (elsewhere c (λ w. absurd (ground (arith, s, w))) apart) top
                (big.over_child c p q up)
        ]
    | inr e ↦
        let off : i ≢ parent c = λ w. absurd (ground (arith, e, w)) in
        let top = elsewhere (parent c) (λ w. t (sym w)) off in
        elim (Bool-cases (c == i)) [
          | inl s ↦
              let here : c ≡ i = (==_iff c i).0 s in
              Le_eq (ap (item (swap a i m)) here ∙ at_i) top (
                subst (λ k. Le (item a m) (item a (parent k))) (sym here)
                  (v.bridged m (omega (arith, below)) inside under (omega (arith, p, here))
                    (subst (λ k. lo ≤ parent k) here r)))
          | inr s ↦
              let not_m : m ≢ c = λ w. off (sym (ap parent (sym w) ∙ under)) in
              Le_eq (elsewhere c not_m (λ w. absurd (ground (arith, s, w)))) top
                (v.edges c p q r (λ w. off (sym w)))
        ]
  ]

  swap_bridge :
      (c : ℕ)
      → 0 < c
      → c < count
      → parent c ≡ m
      → 0 < m
      → lo ≤ parent m
      → Le (item (swap a i m) c) (item (swap a i m) (parent m))
  swap_bridge c p q r pos lo_m =
      let under_m : m < c = ground (arith, p, r) in
      let low =
        elsewhere c (λ w. absurd (omega (arith, w, under_m)))
          (λ w. absurd (omega (arith, w, under_m, below))) in
      let off : parent c ≢ i = λ w. absurd (omega (arith, w, r, below)) in
      let lo_c : lo ≤ parent c = omega (arith, r, under, lo_m, below) in
      Le_eq low (ap (item (swap a i m)) under ∙ at_i)
        (subst (λ k. Le (item a c) (item a k)) r (v.edges c p q lo_c off))

  pub swap-DownInv : DownInv lo count m (swap a i m)
  swap-DownInv = record { edges = swap_edge; bridged = swap_bridge }
