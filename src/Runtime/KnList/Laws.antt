-- ===== src/Runtime/KnList/Laws.antt =====
-- The operations of the runtime's lists (libs/runtime/src/kn_runtime.c) are those of plain lists.
use kinal.Prelude.{
  ℕ, zero, suc, true, ◌+◌, ◌-◌, ◌≤◌, ◌<◌, Bool, false, List, [], ◌∷◌, ◌++◌, length, get_or, set,
  ltb, leb, ◌==◌, ◌≡◌, refl, sym, ap, subst, ◌∙◌, arith, length-set, inl, inr, Bool-cases,
}
use kinal.Runtime.KnList.{
  KnAny, none_any, KnList, Index, clamp, list_reserve, list_add, list_insert, move_up,
}
use kinal.Runtime.KnList.Arrays.{get_or-set, length-move_up, get_or-move_up}
use kinal.Runtime.KnList.Contents.{
  contents, IsList, insert_at, length-contents, get_or-contents, holds, length-insert_at,
  get_or-insert_at,
}
use kinal.Runtime.KnList.Reserve.{Given, reserve-Roomy}
use kinal.Runtime.Table.Moves.{IsBounded}

clamp-le : (index : Index) (count : ℕ) → clamp index count ≤ count
clamp-le Index.negative count = omega arith
clamp-le (Index.at i) count = ground arith

-- A list with room after an element is put in.
abbrev put_in : KnList → ℕ → KnAny → KnList
put_in l idx x = record l {
  count = l.count + 1;
  items = set (move_up (l.count - idx) idx l.items) idx x;
}

module _ (l : KnList) (idx : ℕ) (x : KnAny) (v : IsList l) (room : l.count < l.cap)
    (le : idx ≤ l.count) where
  put_in-IsList : IsList (put_in l idx x)
  put_in-IsList = record {
    within = omega (arith, room);
    size =
        length-set (move_up (l.count - idx) idx l.items) idx x
        ∙ length-move_up (l.count - idx) idx l.items
        ∙ v.size;
    small = v.small;
  }

  put_in_item :
      (j : ℕ)
      → j < l.count + 1
      → get_or (put_in l idx x).items j none_any ≡ get_or (insert_at idx x (contents l)) j none_any
  put_in_item j h =
      let space : idx + (l.count - idx) < length l.items = omega (arith, le, room, v.size) in
      let at = get_or-move_up (l.count - idx) idx l.items j space in
      let put =
        get_or-set (move_up (l.count - idx) idx l.items) idx x j
          (omega (arith, length-move_up (l.count - idx) idx l.items, space)) in
      let spec = get_or-insert_at idx x (contents l) j (omega (arith, length-contents l v, le)) in
      elim (Bool-cases (ltb j idx)) [
        | inl e ↦ ground (arith, at, put, spec, e, get_or-contents l v j (ground (arith, e, le)))
        | inr e ↦ elim (Bool-cases (j == idx)) [
          | inl q ↦ ground (arith, put, spec, e, q)
          | inr n ↦
              let below : j - 1 < l.count = ground (arith, h, e, n) in
              ground (arith, at, put, spec, e, n, h, get_or-contents l v (j - 1) below)
        ]
      ]

  put_in-contents : contents (put_in l idx x) ≡ insert_at idx x (contents l)
  put_in-contents =
      holds (put_in l idx x) put_in-IsList (insert_at idx x (contents l))
        (length-insert_at idx x (contents l) ∙ ap (λ n. n + 1) (length-contents l v)) put_in_item

-- What a list is after a change, against plain lists.
pub record Holds (l : KnList) (xs : List KnAny) : Type 0 where
  pub valid : IsList l
  pub same : contents l ≡ xs

insert_at_end : (x : KnAny) (xs : List KnAny) → insert_at (length xs) x xs ≡ xs ++ (x ∷ [])
unfolding insert_at
insert_at_end x [] = refl
insert_at_end x (y ∷ xs) = ap (◌∷◌ y) (insert_at_end x xs)

put_in_end :
    (r : KnList) (x : KnAny)
    → put_in r r.count x ≡ record r { count = r.count + 1; items = set r.items r.count x }
unfolding move_up
put_in_end r x =
    let no_moves : r.count - r.count ≡ 0 = omega arith in
    ap (λ n. record r { count = r.count + 1; items = set (move_up n r.count r.items) r.count x })
      no_moves

-- What a plain list is with an element put in at a signed index.
abbrev pub inserted : Index → KnAny → List KnAny → List KnAny
inserted Index.negative x xs = x ∷ xs
inserted (Index.at zero) x xs = x ∷ xs
inserted (Index.at (suc i)) x [] = x ∷ []
inserted (Index.at (suc i)) x (y ∷ xs) = y ∷ inserted (Index.at i) x xs

insert_at-inserted :
    (index : Index) (x : KnAny) (xs : List KnAny)
    → insert_at (clamp index (length xs)) x xs ≡ inserted index x xs
unfolding insert_at
insert_at-inserted Index.negative x xs = refl
insert_at-inserted (Index.at zero) x [] = refl
insert_at-inserted (Index.at zero) x (y ∷ xs) =
    let e : ltb (length (y ∷ xs)) 0 ≡ false = ground arith in rw e refl
insert_at-inserted (Index.at (suc i)) x [] =
    let e : ltb 0 (suc i) ≡ true = ground arith in rw e refl
insert_at-inserted (Index.at (suc i)) x (y ∷ xs) =
    let ih = insert_at-inserted (Index.at i) x xs in
    elim (Bool-cases (ltb (length xs) i)) [
      | inl e ↦
          let more : ltb (length (y ∷ xs)) (suc i) ≡ true = ground (arith, e) in
          rw more (ap (◌∷◌ y) (sym (rw e refl) ∙ ih))
      | inr e ↦
          let more : ltb (length (y ∷ xs)) (suc i) ≡ false = ground (arith, e) in
          rw more (ap (◌∷◌ y) (sym (rw e refl) ∙ ih))
    ]

module _ (gc_alloc : ℕ → Bool) (heap : IsBounded gc_alloc) (l : KnList) (v : IsList l)
    (given : Given gc_alloc heap l v) where
  -- Where there is room or memory for one more element, an insertion puts the element at its place:
  -- at the front for a negative index, at the end for one beyond it.
  pub list_insert-insert_at :
      (index : Index) (x : KnAny)
      → Holds (list_insert gc_alloc l index x) (inserted index x (contents l))
  unfolding list_insert
  list_insert-insert_at index x =
      let r = list_reserve gc_alloc l (l.count + 1) in
      let g = reserve-Roomy gc_alloc heap l v given in
      let idx = clamp index l.count in
      let le : idx ≤ r.count = omega (arith, clamp-le index l.count, g.counts) in
      let room : leb r.cap r.count ≡ false = ground (arith, g.room) in
      rw room (record {
        valid = put_in-IsList r idx x g.valid g.room le;
        same =
            put_in-contents r idx x g.valid g.room le
            ∙ ap (insert_at idx x) g.holds
            ∙ ap (λ n. insert_at (clamp index n) x (contents l)) (sym (length-contents l v))
            ∙ insert_at-inserted index x (contents l);
      })

  -- Under the same condition an added element is the last one.
  pub list_add-append : (x : KnAny) → Holds (list_add gc_alloc l x) (contents l ++ (x ∷ []))
  unfolding list_add
  list_add-append x =
      let r = list_reserve gc_alloc l (l.count + 1) in
      let g = reserve-Roomy gc_alloc heap l v given in
      let room : leb r.cap r.count ≡ false = ground (arith, g.room) in
      let le : r.count ≤ r.count = omega arith in
      rw room (
        subst (λ l'. Holds l' (contents l ++ (x ∷ []))) (put_in_end r x)
          (record {
            valid = put_in-IsList r r.count x g.valid g.room le;
            same =
                put_in-contents r r.count x g.valid g.room le
                ∙ ap (λ n. insert_at n x (contents r)) (sym (length-contents r g.valid))
                ∙ insert_at_end x (contents r)
                ∙ ap (λ xs. xs ++ (x ∷ [])) g.holds;
          }))
