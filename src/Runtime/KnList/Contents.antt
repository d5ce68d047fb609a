-- ===== src/Runtime/KnList/Contents.antt =====
-- The operations of the runtime's lists (libs/runtime/src/kn_runtime.c) on what a list holds.
use kinal.Prelude.{
  ℕ, zero, suc, ◌+◌, ◌-◌, ◌^◌, ◌≤◌, ◌<◌, if◌then◌else◌, List, [], ◌∷◌, length, get_or, take, ltb,
  ◌==◌, ◌≡◌, refl, sym, ap, ◌∙◌, arith,
}
use kinal.Runtime.KnList.{KnAny, none_any, KnList}
use kinal.Runtime.KnList.Arrays.{list_ext}

unfoldable pub contents : KnList → List KnAny
contents l = take l.count l.items

pub record IsList (l : KnList) : Type 0 where
  pub within : l.count ≤ l.cap
  pub size : length l.items ≡ l.cap
  pub small : l.cap ≤ 2 ^ 45

-- The element at a place of a list, put in and taken out.
unfoldable pub insert_at : ℕ → KnAny → List KnAny → List KnAny
insert_at zero x xs = x ∷ xs
insert_at (suc n) x [] = x ∷ []
insert_at (suc n) x (y ∷ xs) = y ∷ insert_at n x xs

unfoldable pub delete_at : ℕ → List KnAny → List KnAny
delete_at n [] = []
delete_at zero (y ∷ xs) = xs
delete_at (suc n) (y ∷ xs) = y ∷ delete_at n xs

pub length-take : (n : ℕ) (xs : List KnAny) → n ≤ length xs → length (take n xs) ≡ n
length-take zero xs h = refl
length-take (suc n) [] h = absurd (omega (arith, h))
length-take (suc n) (x ∷ xs) h = ap suc (length-take n xs (omega (arith, h)))

pub get_or-take :
    (n : ℕ) (xs : List KnAny) (j : ℕ) → j < n → get_or (take n xs) j none_any ≡ get_or xs j none_any
get_or-take zero xs j h = absurd (omega (arith, h))
get_or-take (suc n) [] j h = refl
get_or-take (suc n) (x ∷ xs) zero h = refl
get_or-take (suc n) (x ∷ xs) (suc j) h = get_or-take n xs j (omega (arith, h))

pub length-insert_at :
    (n : ℕ) (x : KnAny) (xs : List KnAny) → length (insert_at n x xs) ≡ length xs + 1
unfolding insert_at
length-insert_at zero x xs = omega arith
length-insert_at (suc n) x [] = refl
length-insert_at (suc n) x (y ∷ xs) = omega (arith, length-insert_at n x xs)

pub get_or-insert_at :
    (n : ℕ) (x : KnAny) (xs : List KnAny) (j : ℕ)
    → n ≤ length xs
    → get_or (insert_at n x xs) j none_any
      ≡ (if ltb j n then get_or xs j none_any else if j == n then x else get_or xs (j - 1) none_any)
unfolding insert_at
get_or-insert_at zero x xs zero h = refl
get_or-insert_at zero x xs (suc j) h = ground arith
get_or-insert_at (suc n) x [] j h = absurd (omega (arith, h))
get_or-insert_at (suc n) x (y ∷ xs) zero h = ground arith
get_or-insert_at (suc n) x (y ∷ xs) (suc zero) h =
    ground (arith, get_or-insert_at n x xs 0 (omega (arith, h)))
get_or-insert_at (suc n) x (y ∷ xs) (suc (suc j)) h =
    ground (arith, get_or-insert_at n x xs (suc j) (omega (arith, h)))

pub length-delete_at :
    (n : ℕ) (xs : List KnAny) → n < length xs → length (delete_at n xs) + 1 ≡ length xs
unfolding delete_at
length-delete_at n [] h = absurd (omega (arith, h))
length-delete_at zero (y ∷ xs) h = omega arith
length-delete_at (suc n) (y ∷ xs) h = omega (arith, length-delete_at n xs (omega (arith, h)))

pub get_or-delete_at :
    (n : ℕ) (xs : List KnAny) (j : ℕ)
    → n < length xs
    → get_or (delete_at n xs) j none_any
      ≡ (if ltb j n then get_or xs j none_any else get_or xs (j + 1) none_any)
unfolding delete_at
get_or-delete_at n [] j h = absurd (omega (arith, h))
get_or-delete_at zero (y ∷ xs) j h = ground arith
get_or-delete_at (suc n) (y ∷ xs) zero h = ground arith
get_or-delete_at (suc n) (y ∷ xs) (suc j) h =
    ground (arith, get_or-delete_at n xs j (omega (arith, h)))

-- What a list holds, by its elements.
module _ (l : KnList) (v : IsList l) where
  pub length-contents : length (contents l) ≡ l.count
  unfolding contents
  length-contents = length-take l.count l.items (omega (arith, v.within, v.size))

  pub get_or-contents :
      (j : ℕ) → j < l.count → get_or (contents l) j none_any ≡ get_or l.items j none_any
  unfolding contents
  get_or-contents j h = get_or-take l.count l.items j h

  -- A list holds what its array has.
  pub holds :
      (xs : List KnAny)
      → length xs ≡ l.count
      → ((j : ℕ) → j < l.count → get_or l.items j none_any ≡ get_or xs j none_any)
      → contents l ≡ xs
  holds xs e h = list_ext (contents l) xs (length-contents ∙ sym e) (λ j b.
      let b' : j < l.count = omega (arith, b, length-contents) in get_or-contents j b' ∙ h j b')
