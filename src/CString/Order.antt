-- ===== src/CString/Order.antt =====
-- `kn_strcmp` is the lexicographic order of the texts before the terminators, a total order.
use kinal.CString.{c_string, strlen_loop, compare_bytes, by_length, kn_strcmp, Ordering}
use kinal.Prelude.{
  [], ◌∷◌, some, ◌≡◌, ◌↔◌, refl, sym, subst, arith, Bytes, ltb, ◌==◌, if◌then◌else◌,
}

-- The lexicographic order of two texts, a prefix before what it begins.
abbrev pub lexicographic : Bytes → Bytes → Ordering
lexicographic [] [] = Ordering.eq
lexicographic [] (y ∷ ys) = Ordering.lt
lexicographic (x ∷ xs) [] = Ordering.gt
lexicographic (x ∷ xs) (y ∷ ys) =
    let rest = lexicographic xs ys in
    if x == y then rest else if ltb x y then Ordering.lt else Ordering.gt

compare_bytes-lexicographic :
    (a b : Bytes)
    → by_length
        (compare_bytes a b
          (if ltb (strlen_loop a) (strlen_loop b) then strlen_loop a else strlen_loop b))
        (strlen_loop a)
        (strlen_loop b)
      ≡ lexicographic (c_string a) (c_string b)
unfolding compare_bytes strlen_loop c_string
compare_bytes-lexicographic [] [] = refl
compare_bytes-lexicographic [] (y ∷ ys) = ground arith
compare_bytes-lexicographic (x ∷ xs) [] = ground arith
compare_bytes-lexicographic (x ∷ xs) (y ∷ ys) = ground (arith, compare_bytes-lexicographic xs ys)

-- On two pointers that are not null, `kn_strcmp` is the lexicographic order of the bytes before
-- the first NUL of each.
pub kn_strcmp-lexicographic :
    (a b : Bytes) → kn_strcmp (some a) (some b) ≡ lexicographic (c_string a) (c_string b)
unfolding kn_strcmp
kn_strcmp-lexicographic a b = compare_bytes-lexicographic a b

pub lexicographic-eq : (a b : Bytes) → (lexicographic a b ≡ Ordering.eq) ↔ (a ≡ b)
lexicographic-eq [] [] = ground arith
lexicographic-eq [] (y ∷ ys) = ground arith
lexicographic-eq (x ∷ xs) [] = ground arith
lexicographic-eq (x ∷ xs) (y ∷ ys) = ground (arith, lexicographic-eq xs ys)

pub lexicographic_trans :
    (a b c : Bytes)
    → lexicographic a b ≡ Ordering.lt
    → lexicographic b c ≡ Ordering.lt
    → lexicographic a c ≡ Ordering.lt
lexicographic_trans [] [] c p q = ground arith
lexicographic_trans [] (y ∷ ys) [] p q = ground arith
lexicographic_trans [] (y ∷ ys) (z ∷ zs) p q = refl
lexicographic_trans (x ∷ xs) [] c p q = ground arith
lexicographic_trans (x ∷ xs) (y ∷ ys) [] p q = ground arith
lexicographic_trans (x ∷ xs) (y ∷ ys) (z ∷ zs) p q =
    ground (arith, lexicographic_trans xs ys zs, lexicographic-eq xs ys, lexicographic-eq ys zs)

abbrev pub swapped : Ordering → Ordering
swapped Ordering.lt = Ordering.gt
swapped Ordering.eq = Ordering.eq
swapped Ordering.gt = Ordering.lt

pub lexicographic_swap : (a b : Bytes) → lexicographic b a ≡ swapped (lexicographic a b)
lexicographic_swap [] [] = refl
lexicographic_swap [] (y ∷ ys) = refl
lexicographic_swap (x ∷ xs) [] = refl
lexicographic_swap (x ∷ xs) (y ∷ ys) = ground (arith, lexicographic_swap xs ys)

kn_strcmp-eq :
    (a b : Bytes) → (kn_strcmp (some a) (some b) ≡ Ordering.eq) ↔ (c_string a ≡ c_string b)
kn_strcmp-eq a b =
    subst (λ o. (o ≡ Ordering.eq) ↔ (c_string a ≡ c_string b)) (sym (kn_strcmp-lexicographic a b))
      (lexicographic-eq (c_string a) (c_string b))

kn_strcmp_swap : (a b : Bytes) → kn_strcmp (some b) (some a) ≡ swapped (kn_strcmp (some a) (some b))
kn_strcmp_swap a b =
    rw (kn_strcmp-lexicographic b a, kn_strcmp-lexicographic a b)
      (lexicographic_swap (c_string a) (c_string b))

kn_strcmp_trans :
    (a b c : Bytes)
    → kn_strcmp (some a) (some b) ≡ Ordering.lt
    → kn_strcmp (some b) (some c) ≡ Ordering.lt
    → kn_strcmp (some a) (some c) ≡ Ordering.lt
kn_strcmp_trans a b c =
    rw (kn_strcmp-lexicographic a b, kn_strcmp-lexicographic b c, kn_strcmp-lexicographic a c)
      (lexicographic_trans (c_string a) (c_string b) (c_string c))

-- A comparison of texts that orders them: 0 exactly on equal texts, the sign exchanged with the
-- arguments, and "less" transitive.
pub record IsTotalOrder (compare : Bytes → Bytes → Ordering) : Type 0 where
  pub equal : (a b : Bytes) → (compare a b ≡ Ordering.eq) ↔ (c_string a ≡ c_string b)
  pub exchanged : (a b : Bytes) → compare b a ≡ swapped (compare a b)
  pub transitive :
      (a b c : Bytes)
      → compare a b ≡ Ordering.lt
      → compare b c ≡ Ordering.lt
      → compare a c ≡ Ordering.lt

-- On pointers that are not null, `kn_strcmp` orders the texts before the first NUL: it is 0 exactly
-- on equal texts, exchanging the arguments exchanges -1 and 1, and "less" is transitive.
pub kn_strcmp-IsTotalOrder : IsTotalOrder (λ a b. kn_strcmp (some a) (some b))
kn_strcmp-IsTotalOrder = record {
  equal = kn_strcmp-eq;
  exchanged = kn_strcmp_swap;
  transitive = kn_strcmp_trans;
}
