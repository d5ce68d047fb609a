-- ===== src/Runtime/KnList/Search.antt =====
-- The end of a list, and the search in it (libs/runtime/src/kn_runtime.c, __kn_list_pop,
-- __kn_list_contains and __kn_list_index_of).
use kinal.Prelude.{
  ℕ, zero, suc, ◌+◌, ◌-◌, ◌≤◌, ◌<◌, Bool, true, false, Option, none, some, List, [], ◌∷◌, ◌++◌,
  Bytes, length, get_or, take, ◌==◌, ◌≡◌, refl, sym, ap, ◌∙◌, arith, inl, inr, Bool-cases, ==_iff,
  length-append, ◌↔◌, ◌⊎◌, ◌≢◌,
}
use kinal.Runtime.KnList.{KnAny, none_any, KnList, list_pop, list_add}
use kinal.Runtime.KnList.Contents.{contents, IsList, length-contents, get_or-contents}
use kinal.Runtime.KnList.Laws.{Holds, list_add-append}
use kinal.Runtime.KnList.Reserve.{Given}
use kinal.Runtime.KnList.{is_item, index_loop, list_index_of, contains_loop, list_contains}
use kinal.Runtime.Strings.{rt_streq, rt_streq-c_string}
use kinal.Runtime.Table.Moves.{IsBounded}
use kinal.CString.{c_string}
use mathlib.Core.Option.{some-injective}

get_or_last : (xs : List KnAny) (x : KnAny) → get_or (xs ++ (x ∷ [])) (length xs) none_any ≡ x
get_or_last [] x = refl
get_or_last (y ∷ xs) x = get_or_last xs x

take_less :
    (xs ys : List KnAny) (x : KnAny)
    → take (suc (length ys)) xs ≡ ys ++ (x ∷ [])
    → take (length ys) xs ≡ ys
take_less xs [] x h = refl
take_less [] (y ∷ ys) x h = absurd (ground (arith, h))
take_less (z ∷ xs) (y ∷ ys) x h =
    let tails = take_less xs ys x (ground (arith, h)) in ground (arith, h, tails)

-- What popping does to a list with a last element.
pop_last :
    (l : KnList) (ys : List KnAny) (x : KnAny)
    → Holds l (ys ++ (x ∷ []))
    → Holds (list_pop l).0 ys × ((list_pop l).1 ≡ x)
unfolding list_pop contents
pop_last l ys x h =
    let valid = h.valid in
    let size : l.count ≡ suc (length ys) =
      omega
        (arith, length-contents l valid, ap (λ xs. length xs) h.same, length-append ys (x ∷ [])) in
    let less : l.count - 1 ≡ length ys = omega (arith, size) in
    let some_item : (l.count == 0) ≡ false = ground (arith, size) in
    let last = get_or-contents l valid (length ys) (omega (arith, size)) in
    rw some_item (
      record {
        valid = record {
          within = omega (arith, valid.within);
          size = valid.size;
          small = valid.small;
        };
        same =
            ap (λ n. take n l.items) less
            ∙ take_less l.items ys x (ap (λ n. take n l.items) (sym size) ∙ h.same);
      },
      ap (λ n. get_or l.items n none_any) less
          ∙ sym last
          ∙ ap (λ xs. get_or xs (length ys) none_any) h.same
          ∙ get_or_last ys x,
    )

-- What is added last is popped first: where there is room or memory for one more element, adding
-- one and popping gives that element and leaves what the list held.
list_pop-list_add :
    (gc_alloc : ℕ → Bool) (heap : IsBounded gc_alloc) (l : KnList) (v : IsList l)
    → Given gc_alloc heap l v
    → (x : KnAny)
    → Holds (list_pop (list_add gc_alloc l x)).0 (contents l)
      × ((list_pop (list_add gc_alloc l x)).1 ≡ x)
list_pop-list_add gc_alloc heap l v given x =
    pop_last (list_add gc_alloc l x) (contents l) x (list_add-append gc_alloc heap l v given x)

-- What is read at a pointer, none at a null pointer.
abbrev text_at : Option Bytes → Option Bytes
text_at none = none
text_at (some s) = some (c_string s)

-- An element is the value that is looked for: it has its tag, and its payload, or, where the tag is
-- that of a text, both pointers are null or their texts are equal.
pub record Same (texts : ℕ → Option Bytes) (y x : KnAny) : Type 0 where
  pub tag : y.tag ≡ x.tag
  pub value :
      ((x.tag ≡ 5) × (text_at (texts y.payload) ≡ text_at (texts x.payload)))
      ⊎ ((x.tag ≢ 5) × (y.payload ≡ x.payload))

rt_streq-map : (p q : Option Bytes) → (rt_streq p q ≡ true) ↔ (text_at p ≡ text_at q)
unfolding rt_streq
rt_streq-map none none = (λ e. refl, λ e. refl)
rt_streq-map none (some b) = (λ e. absurd (cc e), λ e. absurd (cc e))
rt_streq-map (some a) none = (λ e. absurd (cc e), λ e. absurd (cc e))
rt_streq-map (some a) (some b) = (
  λ e. ap some ((rt_streq-c_string a b).0 e),
  λ e. (rt_streq-c_string a b).1 (some-injective _ _ e),
)

is_item-Same : (texts : ℕ → Option Bytes) (y x : KnAny) → is_item texts y x ≡ true → Same texts y x
unfolding is_item
is_item-Same texts y x h = elim (Bool-cases (x.tag == 5)) [
  | inl e ↦ record {
    tag = ground (arith, h);
    value = inl ((==_iff x.tag 5).0 e, (rt_streq-map _ _).0 (ground (arith, h, e)));
  }
  | inr e ↦ record {
    tag = ground (arith, h);
    value = inr (λ z. absurd (ground (arith, z, e)), ground (arith, h, e));
  }
]

Same-is_item : (texts : ℕ → Option Bytes) (y x : KnAny) → Same texts y x → is_item texts y x ≡ true
unfolding is_item
Same-is_item texts y x s = elim s.value [
  | inl (five, e) ↦ ground (arith, s.tag, five, (rt_streq-map _ _).1 e)
  | inr (other, e) ↦ ground (arith, s.tag, other, e)
]

-- The loops of the search, on fuel that is the rounds left.
module _ (texts : ℕ → Option Bytes) (items : List KnAny) (x : KnAny) where
  abbrev hit : ℕ → Bool
  hit i = is_item texts (get_or items i none_any) x

  abbrev Hit : ℕ → Type 0
  Hit i = Same texts (get_or items i none_any) x

  no_hit : (i : ℕ) → hit i ≡ false → ¬ Hit i
  no_hit i e s = absurd (cc (Same-is_item texts (get_or items i none_any) x s, e))

  -- The first place from `i` on, among `n` places, that holds the value.
  pub data IsFirst (i n : ℕ) : Option ℕ → Type 0 where
    nowhere :
        ((j : ℕ) → i ≤ j → j < i + n → ¬ Same texts (get_or items j none_any) x) → IsFirst i n none
    first :
        (k : ℕ)
        → i ≤ k
        → k < i + n
        → Same texts (get_or items k none_any) x
        → ((j : ℕ) → i ≤ j → j < k → ¬ Same texts (get_or items j none_any) x)
        → IsFirst i n (some k)

  step_back :
      (i b : ℕ)
      → hit i ≡ false
      → ((j : ℕ) → i + 1 ≤ j → j < b → ¬ Hit j)
      → (j : ℕ) → i ≤ j
      → j < b
      → ¬ Hit j
  step_back i b e h j lo hi = elim (Bool-cases (i == j)) [
    | inl q ↦ no_hit j (ap hit (sym ((==_iff i j).0 q)) ∙ e)
    | inr n ↦ h j (ground (arith, lo, n)) hi
  ]

  later : (n i : ℕ) → hit i ≡ false → (r : Option ℕ) → IsFirst (i + 1) n r → IsFirst i (suc n) r
  later n i e r (IsFirst.nowhere h) =
      IsFirst.nowhere
        (λ j lo hi. step_back i (i + suc n) e (λ k a b. h k a (omega (arith, b))) j lo hi)
  later n i e r (IsFirst.first k lo hi at h) =
      IsFirst.first k (omega (arith, lo)) (omega (arith, hi)) at (step_back i k e h)

  index_loop-IsFirst : (n i : ℕ) → IsFirst i n (index_loop texts n i items x)
  unfolding index_loop
  index_loop-IsFirst zero i = IsFirst.nowhere (λ j a b. absurd (omega (arith, a, b)))
  index_loop-IsFirst (suc n) i = elim (Bool-cases (hit i)) [
    | inl e ↦ rw e (
        IsFirst.first i (omega arith) (omega arith)
          (is_item-Same texts (get_or items i none_any) x e)
          (λ j a b. absurd (omega (arith, a, b))))
    | inr e ↦ rw e (later n i e (index_loop texts n (i + 1) items x) (index_loop-IsFirst n (i + 1)))
  ]

  contains_loop-index_loop :
      (n i : ℕ)
      → contains_loop texts n i items x
        ≡ elim (index_loop texts n i items x) [ none ↦ false | some k ↦ true ]
  unfolding contains_loop index_loop
  contains_loop-index_loop zero i = refl
  contains_loop-index_loop (suc n) i = elim (Bool-cases (hit i)) [
    | inl e ↦ rw e refl
    | inr e ↦ rw e (contains_loop-index_loop n (i + 1))
  ]

-- The search gives the first place of the list that holds the value: one with its tag and its
-- payload, or, where the tag is that of a text, with an equal text. `contains` says whether there is
-- such a place.
pub list_index_of-IsFirst :
    (texts : ℕ → Option Bytes) (l : KnList) (x : KnAny)
    → IsFirst texts l.items x 0 l.count (list_index_of texts l x)
      × (list_contains texts l x ≡ elim (list_index_of texts l x) [ none ↦ false | some k ↦ true ])
unfolding list_index_of list_contains
list_index_of-IsFirst texts l x = (
  index_loop-IsFirst texts l.items x l.count 0,
  contains_loop-index_loop texts l.items x l.count 0,
)
