-- ===== src/Runtime/Dict/Listing.antt =====
-- The listing of the keys and values of a dictionary or set (libs/runtime/src/kn_runtime.c).
use kinal.Prelude.{
  ℕ, ◌+◌, ◌*◌, ◌≤◌, Bool, true, none, some, List, [], ◌∷◌, ◌++◌, append_assoc, append-nil, length,
  Bytes, ◌≡◌, refl, sym, ap, ◌∙◌, arith, inl, inr, ltb, Bool-cases, length-append,
}
use kinal.Runtime.Dict.{list_entries, table_keys}
use kinal.Runtime.KnList.{KnAny, KnList, list_new, list_add}
use kinal.Runtime.KnList.Contents.{contents, IsList, length-contents}
use kinal.Runtime.KnList.Laws.{Holds, list_add-append}
use kinal.Runtime.KnList.Reserve.{Given, next_cap}
use kinal.Runtime.Table.{Entry, Slots, Table}
use kinal.Runtime.Table.Moves.{IsBounded, IsTable}
use kinal.Runtime.Table.Reference.{Apart, IsSlots-Apart}
use kinal.Runtime.Table.Slots.{used}

-- The entries in use, in the order of the slots.
unfoldable pub stored {ℓ} : {V : Type ℓ} → (Entry V → KnAny) → Slots V → List KnAny
stored item [] = []
stored item (none ∷ es) = stored item es
stored item (some e ∷ es) = item e ∷ stored item es

module _ {ℓ} {V : Type ℓ} (gc_alloc : ℕ → Bool) (heap : IsBounded gc_alloc) (item : Entry V → KnAny)
    (most : ℕ) (plenty : (n : ℕ) → n ≤ 16 * most + 64 → gc_alloc n ≡ true) where
  given : (l : KnList) (v : IsList l) → l.count ≤ most → Given gc_alloc heap l v
  given l v h = elim (Bool-cases (ltb l.count l.cap)) [
    | inl e ↦ inl (ground (arith, e))
    | inr e ↦ inr (plenty (8 * next_cap l.cap) (ground (arith, e, h)))
  ]

  list_entries-stored :
      (es : Slots V) (l : KnList)
      → IsList l
      → l.count + used es ≤ most
      → Holds (list_entries gc_alloc item es l) (contents l ++ stored item es)
  unfolding list_entries stored used
  list_entries-stored [] l v h = record { valid = v; same = sym (append-nil (contents l)) }
  list_entries-stored (none ∷ es) l v h = list_entries-stored es l v h
  list_entries-stored (some e ∷ es) l v h =
      let added = list_add-append gc_alloc heap l v (given l v (omega (arith, h))) (item e) in
      let l' = list_add gc_alloc l (item e) in
      let size : l'.count ≡ l.count + 1 = omega (
        arith,
        length-contents l' added.valid,
        ap (λ xs. length xs) added.same,
        length-append (contents l) (item e ∷ []),
        length-contents l v,
      ) in
      let rest = list_entries-stored es l' added.valid (omega (arith, size, h)) in
      record {
        valid = rest.valid;
        same =
            rest.same
            ∙ ap (λ xs. xs ++ stored item es) added.same
            ∙ append_assoc (contents l) (item e ∷ []) (stored item es);
      }

length-stored {ℓ} :
    {V : Type ℓ} (item : Entry V → KnAny) (es : Slots V) → length (stored item es) ≡ used es
unfolding stored used
length-stored item [] = refl
length-stored item (none ∷ es) = length-stored item es
length-stored item (some e ∷ es) = omega (arith, length-stored item es)

IsTable-Apart {ℓ} :
    {V : Type ℓ} (size : ℕ) (t : Table V)
    → IsTable size t
    → (t.count ≡ used t.entries) × Apart t.entries
unfolding used
IsTable-Apart size t (IsTable.unborn c n e) = rw e (n, tt)
IsTable-Apart size t (IsTable.live least fits counted room v) =
    (counted, IsSlots-Apart t.cap t.entries v)

new-IsList : IsList list_new
unfolding list_new
new-IsList = record { within = omega arith; size = refl; small = omega arith }

-- With the memory that it takes, the list of the keys of a valid table has the keys of the entries
-- in the order of their slots, as many as the table counts, and no two with equal texts.
pub table_keys-stored {ℓ} :
    {V : Type ℓ} (gc_alloc : ℕ → Bool) (heap : IsBounded gc_alloc) (address : Bytes → ℕ) (size : ℕ)
    (t : Table V)
    → IsTable size t
    → ((n : ℕ) → n ≤ 16 * t.count + 64 → gc_alloc n ≡ true)
    → let keys = table_keys gc_alloc address t in
      (contents keys ≡ stored (λ e. record { tag = 5; payload = address e.key }) t.entries)
      × (keys.count ≡ t.count)
      × Apart t.entries
unfolding table_keys list_new contents
table_keys-stored {V = V} gc_alloc heap address size t v plenty =
    let item : Entry V → KnAny = λ e. record { tag = 5; payload = address e.key } in
    let (counted, apart) = IsTable-Apart size t v in
    let h =
      list_entries-stored gc_alloc heap item t.count plenty t.entries list_new new-IsList
        (omega (arith, counted)) in
    (
      h.same,
      omega (
        arith,
        length-contents (list_entries gc_alloc item t.entries list_new) h.valid,
        ap (λ xs. length xs) h.same,
        length-stored item t.entries,
        counted,
      ),
      apart,
    )
