-- ===== src/Runtime/KnList/Elements.antt =====
-- Reading, writing and taking out the elements of a list (libs/runtime/src/kn_runtime.c).
use kinal.Prelude.{
  ℕ, zero, suc, ◌+◌, ◌-◌, ◌≤◌, ◌<◌, false, if◌then◌else◌, List, [], ◌∷◌, length, get_or, set, leb,
  ◌==◌, ◌≡◌, refl, sym, ap, ◌∙◌, arith, length-set, inl, inr, Bool-cases, get_or_end,
}
use kinal.Runtime.KnList.{KnAny, none_any, KnList, list_get, list_set, list_remove_at, move_down}
use kinal.Runtime.KnList.Arrays.{get_or-set, length-move_down, get_or-move_down}
use kinal.Runtime.KnList.Contents.{
  contents, IsList, delete_at, length-contents, get_or-contents, holds, length-delete_at,
  get_or-delete_at,
}
use kinal.Runtime.KnList.Laws.{Holds}

set_end : (xs : List KnAny) (i : ℕ) (x : KnAny) → length xs ≤ i → set xs i x ≡ xs
set_end [] i x h = refl
set_end (y ∷ xs) zero x h = absurd (omega (arith, h))
set_end (y ∷ xs) (suc i) x h = ap (◌∷◌ y) (set_end xs i x (omega (arith, h)))

module _ (l : KnList) (v : IsList l) where
  -- An index in range reads the element, any other the value without a tag.
  pub list_get-contents : (i : ℕ) → list_get l i ≡ get_or (contents l) i none_any
  unfolding list_get
  list_get-contents i = elim (Bool-cases (leb l.count i)) [
    | inl e ↦
        let out : length (contents l) ≤ i = ground (arith, e, length-contents l v) in
        rw e (sym (get_or_end (contents l) i none_any out))
    | inr e ↦ rw e (sym (get_or-contents l v i (ground (arith, e))))
  ]

  -- A write in range replaces the element, any other changes nothing.
  pub list_set-set : (i : ℕ) (x : KnAny) → Holds (list_set l i x) (set (contents l) i x)
  unfolding list_set
  list_set-set i x = elim (Bool-cases (leb l.count i)) [
    | inl e ↦
        let out : length (contents l) ≤ i = ground (arith, e, length-contents l v) in
        rw e (record { valid = v; same = sym (set_end (contents l) i x out) })
    | inr e ↦
        let inside : i < l.count = ground (arith, e) in
        let valid' : IsList (record l { items = set l.items i x }) = record {
          within = v.within;
          size = length-set l.items i x ∙ v.size;
          small = v.small;
        } in
        rw e (record {
          valid = valid';
          same =
              holds (record l { items = set l.items i x }) valid' (set (contents l) i x)
                (length-set (contents l) i x ∙ length-contents l v)
                (λ j b.
                  get_or-set l.items i x j (omega (arith, inside, v.within, v.size))
                  ∙ ap (λ y. if i == j then x else y) (sym (get_or-contents l v j b))
                  ∙ sym
                      (get_or-set (contents l) i x j (omega (arith, inside, length-contents l v))));
        })
  ]

  removed-IsList :
      (i : ℕ)
      → IsList (record l { count = l.count - 1; items = move_down (l.count - (i + 1)) i l.items })
  removed-IsList i = record {
    within = omega (arith, v.within);
    size = length-move_down (l.count - (i + 1)) i l.items ∙ v.size;
    small = v.small;
  }

  removed_item :
      (i j : ℕ)
      → i < l.count
      → j < l.count - 1
      → get_or (move_down (l.count - (i + 1)) i l.items) j none_any
        ≡ get_or (delete_at i (contents l)) j none_any
  removed_item i j inside h =
      let space : i + (l.count - (i + 1)) < length l.items =
        omega (arith, inside, v.within, v.size) in
      let at = get_or-move_down (l.count - (i + 1)) i l.items j space in
      let spec = get_or-delete_at i (contents l) j (omega (arith, inside, length-contents l v)) in
      ground (
        arith,
        at,
        spec,
        h,
        inside,
        get_or-contents l v j (omega (arith, h)),
        get_or-contents l v (j + 1) (omega (arith, h)),
      )

  -- An index in range takes its element out and gives it.
  pub list_remove_at-delete_at :
      (i : ℕ)
      → i < l.count
      → Holds (list_remove_at l i).0 (delete_at i (contents l))
        × ((list_remove_at l i).1 ≡ get_or (contents l) i none_any)
  unfolding list_remove_at
  list_remove_at-delete_at i inside =
      let e : leb l.count i ≡ false = ground (arith, inside) in
      let l' = record l { count = l.count - 1; items = move_down (l.count - (i + 1)) i l.items } in
      rw e (
        record {
          valid = removed-IsList i;
          same =
              holds l' (removed-IsList i) (delete_at i (contents l))
                (omega (
                  arith,
                  length-delete_at i (contents l) (omega (arith, inside, length-contents l v)),
                  length-contents l v,
                  inside,
                ))
                (λ j b. removed_item i j inside b);
        },
        sym (get_or-contents l v i inside),
      )
