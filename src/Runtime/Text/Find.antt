-- ===== src/Runtime/Text/Find.antt =====
-- The search for a text in another (libs/runtime/src/kn_runtime.c, rt_str_index_of and
-- rt_str_contains).
use kinal.Prelude.{
  ℕ, zero, suc, ◌+◌, ◌-◌, ◌≤◌, ◌<◌, true, false, Option, none, some, [], ◌∷◌, ◌++◌, Bytes, length,
  drop, ltb, leb, ◌==◌, ◌≡◌, refl, sym, ap, inl, inr, arith, Bool-cases, length-append, length-drop,
  subst, ==_iff,
}
use kinal.Runtime.Text.{is_at, find_loop, text, text_index_of, text_contains}
use kinal.Runtime.Text.Matches.{is_at-drop, drop-is_at}

-- A text stands at an offset of another.
pub record Occurs (s sub : Bytes) (i : ℕ) : Type 0 where
  pub behind : Bytes
  pub splits : drop i s ≡ sub ++ behind
  pub within : i ≤ length s

-- The first offset from `i` on at which the text stands, if there is one.
pub data Found (s sub : Bytes) (i : ℕ) : Option ℕ → Type 0 where
  nowhere : ((j : ℕ) → i ≤ j → ¬ Occurs s sub j) → Found s sub i none
  first :
      (k : ℕ)
      → i ≤ k
      → Occurs s sub k
      → ((j : ℕ) → i ≤ j → j < k → ¬ Occurs s sub j)
      → Found s sub i (some k)

module _ (s sub : Bytes) where
  Occurs-is_at : (i : ℕ) → Occurs s sub i → (i + length sub ≤ length s) × (is_at s i sub ≡ true)
  Occurs-is_at i o = (
    omega
        (arith, length-drop i s, ap (λ t. length t) o.splits, length-append sub o.behind, o.within),
    drop-is_at s i sub o.behind o.splits,
  )

  is_at-Occurs : (i : ℕ) → i + length sub ≤ length s → is_at s i sub ≡ true → Occurs s sub i
  is_at-Occurs i h e = record {
    behind = drop (i + length sub) s;
    splits = is_at-drop s i sub h e;
    within = omega (arith, h);
  }

  later : (i : ℕ) → ¬ Occurs s sub i → (r : Option ℕ) → Found s sub (i + 1) r → Found s sub i r
  later i absent r (Found.nowhere h) = Found.nowhere (λ j le. elim (Bool-cases (i == j)) [
    | inl e ↦ subst (λ k. ¬ Occurs s sub k) ((==_iff i j).0 e) absent
    | inr n ↦ h j (ground (arith, le, n))
  ])
  later i absent r (Found.first k le o h) = Found.first k (omega (arith, le)) o (λ j lo hi.
      elim (Bool-cases (i == j)) [
        | inl e ↦ subst (λ k. ¬ Occurs s sub k) ((==_iff i j).0 e) absent
        | inr n ↦ h j (ground (arith, lo, n)) hi
      ])

  find_loop-Found :
      0 < length sub → (n i : ℕ) → length s - i < n → Found s sub i (find_loop n s sub i)
  unfolding find_loop
  find_loop-Found pos zero i h = absurd (omega (arith, h))
  find_loop-Found pos (suc n) i h = elim (Bool-cases (leb (i + length sub) (length s))) [
    | inl e ↦
        let fits : i + length sub ≤ length s = ground (arith, e) in
        elim (Bool-cases (is_at s i sub)) [
          | inl m ↦ rw e (
              rw m (
                Found.first i (omega arith) (is_at-Occurs i fits m)
                  (λ j lo hi. absurd (omega (arith, lo, hi)))))
          | inr m ↦
              let absent : ¬ Occurs s sub i = λ o. cc (m, (Occurs-is_at i o).1) in
              rw e (
                rw m (
                  later i absent (find_loop n s sub (i + 1))
                    (find_loop-Found pos n (i + 1) (omega (arith, h, fits, pos)))))
        ]
    | inr e ↦ rw e (Found.nowhere (λ j le o. absurd (ground (arith, e, le, (Occurs-is_at j o).0))))
  ]

length-zero : (t : Bytes) → length t ≡ 0 → t ≡ []
length-zero [] h = refl
length-zero (c ∷ t) h = absurd (omega (arith, h))

-- The index of a text in another is the first offset at which it stands, the empty text at the
-- front, and -1 where it stands nowhere; `contains` is whether there is one.
pub text_index_of-Found :
    (p q : Option Bytes)
    → Found (text p) (text q) 0 (text_index_of p q)
      × (text_contains p q ≡ elim (text_index_of p q) [ none ↦ false | some i ↦ true ])
unfolding text_index_of text_contains
text_index_of-Found p q = elim (Bool-cases (length (text q) == 0)) [
  | inl z ↦
      let empty : text q ≡ [] = length-zero (text q) (ground (arith, z)) in
      rw z (
        Found.first 0 (omega arith)
            (record {
              behind = text p;
              splits = sym (ap (λ t. t ++ text p) empty);
              within = omega arith;
            })
            (λ j lo hi. absurd (omega (arith, hi))),
        refl,
      )
  | inr z ↦ elim (Bool-cases (ltb (length (text p)) (length (text q)))) [
    | inl e ↦ rw z (
        rw e (
          Found.nowhere
              (λ j le o. absurd (ground (arith, e, (Occurs-is_at (text p) (text q) j o).0))),
          refl,
        ))
    | inr e ↦ rw z (
        rw e (
          find_loop-Found (text p) (text q) (ground (arith, z)) (length (text p) + 1) 0
              (omega arith),
          refl,
        ))
  ]
]
