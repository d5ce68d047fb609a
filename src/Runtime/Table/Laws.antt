-- ===== src/Runtime/Table/Laws.antt =====
-- Storing and removing in a hash table (libs/runtime/src/kn_runtime.c), against its reference.
use kinal.Prelude.{
  ℕ, ◌+◌, ◌*◌, ◌^◌, ◌≤◌, ◌<◌, Bool, true, false, if◌then◌else◌, none, some, Bytes, length, set, ◌≡◌,
  refl, sym, ap, ◌∙◌, arith, Bool-cases, inl, inr, ◌==◌,
}
use kinal.Runtime.Strings.{rt_streq, rt_streq_left}
use kinal.Runtime.Table.{
  Entry, Table, find_slot, find_value, value_of, table_find, table_put, table_grow, table_set,
}
use kinal.Runtime.Table.Slots.{used}
use kinal.Runtime.Table.Stored.{IsSlots}
use kinal.Runtime.Table.Moves.{IsTable, IsBounded, find_live}
use kinal.Runtime.Table.Grow.{Given, Grown, grown}
use kinal.Runtime.Table.Put.{
  insert-IsSlots, insert-used, insert-find_value, update-IsSlots, update-find_value,
}
use kinal.Runtime.Table.Slots.{used-set-used}
use kinal.Runtime.Table.Stored.{find_slot-found, find_slot-bound}

-- What is found under each key when `v` is stored under `key`, and how many keys there are then.
pub record Stored {ℓ} {V : Type ℓ} (size : ℕ) (t : Table V) (key : Bytes) (v : V) (t' : Table V)
    : Type ℓ where
  pub valid : IsTable size t'
  pub finds :
      (k : Bytes)
      → table_find t' k ≡ (if rt_streq (some key) (some k) then some v else table_find t k)
  pub counts : t'.count ≡ elim (table_find t key) [ none ↦ t.count + 1 | some _ ↦ t.count ]

module _ {ℓ} {V : Type ℓ} (size : ℕ) (t : Table V) (least : 8 ≤ t.cap)
    (fits : size * t.cap ≤ 2 ^ 48) (counted : t.count ≡ used t.entries)
    (spare : t.count + 1 < t.cap) (v : IsSlots t.cap t.entries) (key : Bytes) (w : V) where
  abbrev at : Bool × ℕ
  at = find_slot t.entries t.cap key

  put_missed : at.0 ≡ false → Stored size t key w (table_put t key w)
  unfolding table_put find_value
  put_missed missed =
      let x : Entry V = record { key = key; value = w } in
      let room : used t.entries < t.cap = omega (arith, counted, spare) in
      let more = insert-used t.cap t.entries v x room missed in
      let valid' = insert-IsSlots t.cap t.entries v x room missed in
      let absent : table_find t key ≡ none = find_live t least key ∙ rw (missed, find_value) refl in
      rw missed (record {
        valid = IsTable.live least fits (omega (arith, counted, more)) spare valid';
        finds = λ k.
            find_live (record t { count = t.count + 1; entries = set t.entries at.1 (some x) })
              least k
            ∙ insert-find_value t.cap t.entries v x room missed k
            ∙ ap (λ o. if rt_streq (some key) (some k) then some w else o)
                (sym (find_live t least k));
        counts = rw absent refl;
      })

  put_found : at.0 ≡ true → Stored size t key w (table_put t key w)
  unfolding table_put find_value
  put_found found =
      let (e, here, same) = find_slot-found t.cap t.entries v key found in
      let x : Entry V = record { key = e.key; value = w } in
      let bound : at.1 < length t.entries = rw v.size (find_slot-bound t.cap t.entries v key) in
      let valid' = update-IsSlots t.cap t.entries v at.1 e x here refl bound in
      let present : table_find t key ≡ some e.value =
        find_live t least key ∙ rw (found, find_value) (ap value_of here) in
      rw found (
        rw here (record {
          valid =
              IsTable.live least fits (counted ∙ sym (used-set-used t.entries at.1 e x here))
                (omega (arith, spare)) valid';
          finds = λ k.
              find_live (record t { entries = set t.entries at.1 (some x) }) least k
              ∙ update-find_value t.cap t.entries v at.1 e x here refl bound k
              ∙ ap (λ b. if b then some w else find_value t.entries t.cap k)
                  (rt_streq_left e.key key k same)
              ∙ ap (λ o. if rt_streq (some key) (some k) then some w else o)
                  (sym (find_live t least k));
          counts = rw present refl;
        }))

  pub put-Stored : Stored size t key w (table_put t key w)
  put-Stored = elim (Bool-cases at.0) [
    | inl found ↦ put_found found
    | inr missed ↦ put_missed missed
  ]

module _ {ℓ} {V : Type ℓ} (size : ℕ) (positive : 1 ≤ size) (small : size ≤ 2 ^ 10)
    (gc_alloc : ℕ → Bool) (heap : IsBounded gc_alloc) where
  put-Grown :
      (t t' : Table V) (key : Bytes) (w : V)
      → Grown size positive small gc_alloc heap t t'
      → IsTable size t'
      → Stored size t key w (table_put t' key w)
  put-Grown t t' key w g (IsTable.unborn c n e) = absurd (omega (arith, c, g.least))
  put-Grown t t' key w g (IsTable.live least fits counted room v) =
      let s = put-Stored size t' least fits counted g.spare v key w in
      record {
        valid = s.valid;
        finds = λ k.
            s.finds k ∙ ap (λ o. if rt_streq (some key) (some k) then some w else o) (g.finds k);
        counts =
            s.counts
            ∙ ap (λ n. elim (table_find t' key) [ none ↦ n + 1 | some _ ↦ n ]) g.counts
            ∙ ap (λ o. elim o [ none ↦ t.count + 1 | some _ ↦ t.count ]) (g.finds key);
      }

  -- Where the memory that it needs can be had, storing a value under a key keeps the table valid.
  -- The key then has the value, every other key what it had, and the count is one more if the key
  -- is new.
  pub table_set-Stored :
      (t : Table V) (key : Bytes) (w : V)
      → IsTable size t
      → Given size positive small gc_alloc heap t
      → Stored size t key w (table_set size gc_alloc t key w)
  unfolding table_set
  table_set-Stored t key w v given =
      let g = grown size positive small gc_alloc heap t v given in
      let some_slots : ((table_grow size gc_alloc t).cap == 0) ≡ false = ground (arith, g.least) in
      rw some_slots (put-Grown t (table_grow size gc_alloc t) key w g g.valid)
