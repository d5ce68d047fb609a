-- ===== src/Runtime/PathList/Swap.antt =====
-- What exchanging two items does (libs/runtime/src/kn_runtime.c, the sort of paths): the items at
-- the two places, and how many items pass a test.
use kinal.Prelude.{
  ℕ, zero, suc, ◌+◌, ◌<◌, Bool, if◌then◌else◌, List, [], ◌∷◌, Bytes, length, set, ◌==◌, ◌≡◌, refl,
  ap, ◌∙◌, arith, length-set, get_or-set_self, get_or-set_ne, Bool-cases, ==_iff, inl, inr,
}
use kinal.Runtime.PathList.{item, swap}

-- How many items pass a test.
pub passing : (Bytes → Bool) → List Bytes → ℕ
passing test [] = 0
passing test (x ∷ xs) = (if test x then 1 else 0) + passing test xs

abbrev one_if : Bool → ℕ
one_if b = if b then 1 else 0

passing-set :
    (test : Bytes → Bool) (xs : List Bytes) (i : ℕ) (v : Bytes)
    → i < length xs
    → passing test (set xs i v) + one_if (test (item xs i)) ≡ passing test xs + one_if (test v)
unfolding passing
passing-set test [] i v h = absurd (omega (arith, h))
passing-set test (x ∷ xs) zero v h = omega arith
passing-set test (x ∷ xs) (suc i) v h = omega (arith, passing-set test xs i v (omega (arith, h)))

pub item-set :
    (xs : List Bytes) (i : ℕ) (v : Bytes) (k : ℕ)
    → i < length xs
    → item (set xs i v) k ≡ (if i == k then v else item xs k)
item-set xs i v k h = elim (Bool-cases (i == k)) [
  | inl e ↦ rw e (rw (← (==_iff i k).0 e) (get_or-set_self xs i v [] h))
  | inr e ↦ rw e (get_or-set_ne xs i k v [] (λ q. cc (e, (==_iff i k).1 q)))
]

module _ (xs : List Bytes) (i j : ℕ) (hi : i < length xs) (hj : j < length xs) where
  pub length-swap : length (swap xs i j) ≡ length xs
  unfolding swap
  length-swap = length-set (set xs i (item xs j)) j (item xs i) ∙ length-set xs i (item xs j)

  pub item-swap :
      (k : ℕ)
      → item (swap xs i j) k
        ≡ (if j == k then item xs i else if i == k then item xs j else item xs k)
  unfolding swap
  item-swap k =
      item-set (set xs i (item xs j)) j (item xs i) k
        (omega (arith, hj, length-set xs i (item xs j)))
      ∙ ap (λ t. if j == k then item xs i else t) (item-set xs i (item xs j) k hi)

  pub passing-swap : (test : Bytes → Bool) → passing test (swap xs i j) ≡ passing test xs
  unfolding swap
  passing-swap test =
      let first = passing-set test xs i (item xs j) hi in
      let second =
        passing-set test (set xs i (item xs j)) j (item xs i)
          (omega (arith, hj, length-set xs i (item xs j))) in
      let at = item-set xs i (item xs j) j hi in
      elim (Bool-cases (i == j)) [
        | inl e ↦
            let q : i ≡ j = (==_iff i j).0 e in
            let there : item (set xs i (item xs j)) j ≡ item xs j = at ∙ rw e refl in
            let same : item xs i ≡ item xs j = ap (item xs) q in
            ground (arith, first, second, there, same)
        | inr e ↦
            let there : item (set xs i (item xs j)) j ≡ item xs j = at ∙ rw e refl in
            ground (arith, first, second, there)
      ]
