-- ===== src/Runtime/PathList/Compare.antt =====
-- The order of paths (libs/runtime/src/kn_runtime.c, rt_path_compare) is that of their texts.
use Prim.Native.Nat.{Ordering}
use kinal.CString.Order.{lexicographic, lexicographic-eq, lexicographic_trans, lexicographic_swap}
use kinal.CString.{c_string}
use kinal.Prelude.{true, false, [], ◌∷◌, Bytes, ◌≡◌, refl, arith, Bool-cases, inl, inr}
use kinal.Runtime.PathList.{rt_path_compare, is_less}

rt_path_compare-lexicographic :
    (a b : Bytes) → rt_path_compare a b ≡ lexicographic (c_string a) (c_string b)
unfolding rt_path_compare c_string
rt_path_compare-lexicographic [] [] = refl
rt_path_compare-lexicographic [] (y ∷ ys) = ground arith
rt_path_compare-lexicographic (x ∷ xs) [] = ground arith
rt_path_compare-lexicographic (x ∷ xs) (y ∷ ys) =
    ground (arith, rt_path_compare-lexicographic xs ys)

-- A path is not behind another.
pub record Le (a b : Bytes) : Type 0 where
  pub in_order : is_less b a ≡ false

is_less_iff :
    (a b : Bytes) → is_less a b ≡ true → lexicographic (c_string a) (c_string b) ≡ Ordering.lt
unfolding is_less
is_less_iff a b h = ground (arith, h, rt_path_compare-lexicographic a b)

iff_is_less :
    (a b : Bytes) → lexicographic (c_string a) (c_string b) ≡ Ordering.lt → is_less a b ≡ true
unfolding is_less
iff_is_less a b h = ground (arith, h, rt_path_compare-lexicographic a b)

pub Le-is_less : (a b : Bytes) → is_less a b ≡ true → Le a b
unfolding is_less
Le-is_less a b h = record {
  in_order = elim (Bool-cases (is_less b a)) [
    | inl e ↦ absurd (
        ground (
          arith,
          is_less_iff a b h,
          is_less_iff b a e,
          lexicographic_swap (c_string a) (c_string b),
        ))
    | inr e ↦ e
  ];
}

pub Le_refl : (a : Bytes) → Le a a
Le_refl a = record {
  in_order = elim (Bool-cases (is_less a a)) [
    | inl e ↦
        absurd
          (ground (arith, is_less_iff a a e, (lexicographic-eq (c_string a) (c_string a)).1 refl))
    | inr e ↦ e
  ];
}

pub Le_trans : (a b c : Bytes) → Le a b → Le b c → Le a c
Le_trans a b c p q = record {
  in_order = elim (Bool-cases (is_less c a)) [
    | inr e ↦ e
    | inl e ↦ absurd (
        ground (
          arith,
          is_less_iff c a e,
          lexicographic_swap (c_string a) (c_string b),
          lexicographic_trans (c_string c) (c_string a) (c_string b),
          lexicographic-eq (c_string a) (c_string b),
          iff_is_less b a,
          iff_is_less c b,
          p.in_order,
          q.in_order,
        ))
  ];
}
