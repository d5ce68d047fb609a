-- ===== src/Runtime/KnList/Arrays.antt =====
-- The loops that move the elements of an array (libs/runtime/src/kn_runtime.c), place by place.
use kinal.Prelude.{
  ℕ, zero, suc, ◌+◌, ◌-◌, ◌<◌, ◌&&◌, if◌then◌else◌, List, [], ◌∷◌, length, get_or, set, ltb, leb,
  ◌==◌, ◌≡◌, refl, ap, ◌∙◌, arith, length-set, get_or-set_self, get_or-set_ne, inl, inr, Bool-cases,
  ==_iff,
}
use kinal.Runtime.KnList.{KnAny, none_any, move_up, move_down}

module _ (s : List KnAny) (i : ℕ) (x : KnAny) (j : ℕ) where
  pub get_or-set :
      i < length s → get_or (set s i x) j none_any ≡ (if i == j then x else get_or s j none_any)
  get_or-set h = elim (Bool-cases (i == j)) [
    | inl e ↦ rw e (rw (← (==_iff i j).0 e) (get_or-set_self s i x none_any h))
    | inr e ↦ rw e (get_or-set_ne s i j x none_any (λ q. cc (e, (==_iff i j).1 q)))
  ]

pub length-move_up : (n idx : ℕ) (s : List KnAny) → length (move_up n idx s) ≡ length s
unfolding move_up
length-move_up zero idx s = refl
length-move_up (suc n) idx s = length-move_up n idx _ ∙ length-set s (idx + n + 1) _

pub get_or-move_up :
    (n idx : ℕ) (s : List KnAny) (j : ℕ)
    → idx + n < length s
    → get_or (move_up n idx s) j none_any
      ≡ (if ltb idx j && leb j (idx + n) then get_or s (j - 1) none_any else get_or s j none_any)
unfolding move_up
get_or-move_up zero idx s j h = ground arith
get_or-move_up (suc n) idx s j h =
    let top = idx + n + 1 in
    let x = get_or s (idx + n) none_any in
    let ih = get_or-move_up n idx (set s top x) j (omega (arith, h, length-set s top x)) in
    let inside : top < length s = omega (arith, h) in
    elim (Bool-cases (top == j)) [
      | inl e ↦
          let q : top ≡ j = (==_iff top j).0 e in
          let source : get_or s (idx + n) none_any ≡ get_or s (j - 1) none_any =
            ap (λ k. get_or s k none_any) (omega (arith, q)) in
          ground (arith, ih, source, get_or-set s top x j inside, q)
      | inr e ↦
          ground (arith, ih, get_or-set s top x j inside, get_or-set s top x (j - 1) inside, e)
    ]

pub length-move_down : (n idx : ℕ) (s : List KnAny) → length (move_down n idx s) ≡ length s
unfolding move_down
length-move_down zero idx s = refl
length-move_down (suc n) idx s = length-move_down n (idx + 1) _ ∙ length-set s idx _

pub get_or-move_down :
    (n idx : ℕ) (s : List KnAny) (j : ℕ)
    → idx + n < length s
    → get_or (move_down n idx s) j none_any
      ≡ (if leb idx j && ltb j (idx + n) then get_or s (j + 1) none_any else get_or s j none_any)
unfolding move_down
get_or-move_down zero idx s j h = ground arith
get_or-move_down (suc n) idx s j h =
    let x = get_or s (idx + 1) none_any in
    let ih = get_or-move_down n (idx + 1) (set s idx x) j (omega (arith, h, length-set s idx x)) in
    let inside : idx < length s = omega (arith, h) in
    elim (Bool-cases (idx == j)) [
      | inl e ↦
          let q : idx ≡ j = (==_iff idx j).0 e in
          let source : get_or s (idx + 1) none_any ≡ get_or s (j + 1) none_any =
            ap (λ k. get_or s k none_any) (omega (arith, q)) in
          ground (arith, ih, source, get_or-set s idx x j inside, q)
      | inr e ↦
          ground (arith, ih, get_or-set s idx x j inside, get_or-set s idx x (j + 1) inside, e)
    ]

-- Lists of one length with the same elements are equal.
pub list_ext :
    (xs ys : List KnAny)
    → length xs ≡ length ys
    → ((j : ℕ) → j < length xs → get_or xs j none_any ≡ get_or ys j none_any)
    → xs ≡ ys
list_ext [] [] e h = refl
list_ext [] (y ∷ ys) e h = absurd (omega (arith, e))
list_ext (x ∷ xs) [] e h = absurd (omega (arith, e))
list_ext (x ∷ xs) (y ∷ ys) e h =
    let tails = list_ext xs ys (omega (arith, e)) (λ j b. h (suc j) (omega (arith, b))) in
    cc (h 0 (omega arith))
