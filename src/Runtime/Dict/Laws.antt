-- ===== src/Runtime/Dict/Laws.antt =====
-- Dictionaries and sets (libs/runtime/src/kn_runtime.c) as maps from texts.
use kinal.Prelude.{
  ℕ, ◌*◌, Bool, true, false, if◌then◌else◌, Option, none, some, Bytes, ◌≡◌, refl, ap, ◌∙◌, arith,
}
use kinal.Runtime.Dict.{KnDict, dict_get, contains, dict_set, dict_remove, dict_entry_size}
use kinal.Runtime.KnList.{KnAny, none_any}
use kinal.Runtime.Strings.{rt_streq}
use kinal.Runtime.Table.{table_new, table_find}
use kinal.Runtime.Table.Grow.{Given}
use kinal.Runtime.Table.Laws.{table_set-Stored}
use kinal.Runtime.Table.Moves.{IsBounded, IsTable}
use kinal.Runtime.Table.Removal.{table_remove-Removed}

-- A map from texts: two keys with the same text are one.
abbrev pub Map : Type 0
Map = Bytes → Option KnAny

abbrev pub put : Bytes → KnAny → Map → Map
put key v m = λ k. if rt_streq (some key) (some k) then some v else m k

abbrev pub delete : Bytes → Map → Map
delete key m = λ k. if rt_streq (some key) (some k) then none else m k

-- The dictionaries that a program can make while the memory that it asks for can be had, each with
-- the map that it stands for. The heap may answer differently each time.
pub data Reaches : KnDict → Map → Type 0 where
  new : Reaches table_new (λ k. none)
  set :
      {d : KnDict} {m : Map} (gc_alloc : ℕ → Bool) (heap : IsBounded gc_alloc) (key : Bytes)
      (v : KnAny)
      → Given {V = KnAny} dict_entry_size (omega arith) (omega arith) gc_alloc heap d
      → Reaches d m
      → Reaches (dict_set gc_alloc d (some key) v) (put key v m)
  remove :
      {d : KnDict} {m : Map} (gc_alloc : ℕ → Bool) (heap : IsBounded gc_alloc) (key : Bytes)
      → gc_alloc (dict_entry_size * d.cap) ≡ true
      → Reaches d m
      → Reaches (dict_remove gc_alloc d (some key)).0 (delete key m)

-- A valid dictionary that gives what the map gives.
pub record Refines (d : KnDict) (m : Map) : Type 0 where
  pub valid : IsTable dict_entry_size d
  pub finds : (k : Bytes) → table_find d k ≡ m k

pub Reaches-Refines : {d : KnDict} {m : Map} → Reaches d m → Refines d m
unfolding dict_set dict_remove table_new table_find
Reaches-Refines Reaches.new = record { valid = IsTable.unborn refl refl refl; finds = λ k. refl }
Reaches-Refines (Reaches.set {d = d} gc_alloc heap key v given r) =
    let before = Reaches-Refines r in
    let s =
      table_set-Stored dict_entry_size (omega arith) (omega arith) gc_alloc heap d key v
        before.valid given in
    record {
      valid = s.valid;
      finds = λ k.
          s.finds k ∙ ap (λ o. if rt_streq (some key) (some k) then some v else o) (before.finds k);
    }
Reaches-Refines (Reaches.remove {d = d} gc_alloc heap key given r) =
    let before = Reaches-Refines r in
    let s =
      table_remove-Removed dict_entry_size gc_alloc d key (omega arith) (omega arith) heap
        before.valid given in
    record {
      valid = s.valid;
      finds = λ k.
          s.finds k ∙ ap (λ o. if rt_streq (some key) (some k) then none else o) (before.finds k);
    }

-- Whatever a program stores and removes, in whatever order, a dictionary gives for a key the value
-- of the map that the same changes make, and the value without a tag for a key that has none;
-- `contains` says whether the key has one.
pub dict_get-Reaches :
    (d : KnDict) (m : Map)
    → Reaches d m
    → (k : Bytes)
    → (dict_get d (some k) ≡ elim (m k) [ none ↦ none_any | some v ↦ v ])
      × (contains d (some k) ≡ elim (m k) [ none ↦ false | some v ↦ true ])
unfolding dict_get contains
dict_get-Reaches d m r k =
    let same = (Reaches-Refines r).finds k in
    (
      ap (λ o. elim o [ none ↦ none_any | some v ↦ v ]) same,
      ap (λ o. elim o [ none ↦ false | some v ↦ true ]) same,
    )
