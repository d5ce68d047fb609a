-- ===== src/Runtime/Dict/Sets.antt =====
-- Sets (libs/runtime/src/kn_runtime.c, __kn_set_add, __kn_set_remove and __kn_set_clear).
use kinal.Prelude.{
  ℕ, ◌+◌, ◌-◌, ◌*◌, Bool, true, false, not, ◌&&◌, ◌||◌, if◌then◌else◌, Option, none, some, Bytes,
  ◌≡◌, refl, sym, ap, ◌∙◌, arith, ◌==◌,
}
use kinal.Runtime.Dict.{KnSet, contains, set_add, set_remove, set_clear, set_entry_size}
use kinal.Runtime.Strings.{rt_streq}
use kinal.Runtime.Table.{table_find, cleared}
use kinal.Runtime.Table.Grow.{Given}
use kinal.Runtime.Table.Laws.{table_set-Stored}
use kinal.Runtime.Table.Moves.{IsBounded, IsTable, find_live, cleared_finds}
use kinal.Runtime.Table.Removal.{table_remove-Removed}
use kinal.Runtime.Table.Rehash.{used-cleared, cleared-IsSlots}

-- What a set has after a change.
pub record Has (s' : KnSet) (members : Bytes → Bool) : Type 0 where
  pub valid : IsTable set_entry_size s'
  pub has : (k : Bytes) → contains s' (some k) ≡ members k

abbrev is_some : Option (Unit {0}) → Bool
is_some none = false
is_some (some u) = true

some_or : (b : Bool) (o : Option (Unit {0})) → is_some (if b then some tt else o) ≡ (b || is_some o)
some_or true o = refl
some_or false o = refl

none_and :
    (b : Bool) (o : Option (Unit {0})) → is_some (if b then none else o) ≡ (not b && is_some o)
none_and true o = refl
none_and false o = refl

module _ (gc_alloc : ℕ → Bool) (heap : IsBounded gc_alloc) (s : KnSet) (key : Bytes)
    (v : IsTable set_entry_size s) where
  -- Where the memory that it needs can be had, adding a key to a valid set adds that key alone,
  -- and the count grows by one if the set did not have it.
  pub set_add-Has :
      Given {V = Unit {0}} set_entry_size (omega arith) (omega arith) gc_alloc heap s
      → Has
          (set_add gc_alloc s (some key))
          (λ k. rt_streq (some key) (some k) || contains s (some k))
        × ((set_add gc_alloc s (some key)).count
            ≡ (if contains s (some key) then s.count else s.count + 1))
  unfolding set_add contains
  set_add-Has given =
      let r =
        table_set-Stored set_entry_size (omega arith) (omega arith) gc_alloc heap s key tt v
          given in
      (
        record {
          valid = r.valid;
          has =
              λ k. ap is_some (r.finds k) ∙ some_or (rt_streq (some key) (some k)) (table_find s k);
        },
        r.counts ∙ counted (table_find s key),
      )
    where
      counted :
          (o : Option (Unit {0}))
          → elim o [ none ↦ s.count + 1 | some u ↦ s.count ]
            ≡ (if (elim o [ none ↦ false | some u ↦ true ]) then s.count else s.count + 1)
      counted none = refl
      counted (some u) = refl

  -- With memory for as many slots again, removing a key from a valid set removes that key alone.
  -- The result says whether the set had it, and the count is one less if it had.
  pub set_remove-Has :
      gc_alloc (set_entry_size * s.cap) ≡ true
      → Has
          (set_remove gc_alloc s (some key)).0
          (λ k. not (rt_streq (some key) (some k)) && contains s (some k))
        × ((set_remove gc_alloc s (some key)).1 ≡ contains s (some key))
        × ((set_remove gc_alloc s (some key)).0.count
            ≡ (if contains s (some key) then s.count - 1 else s.count))
  unfolding set_remove contains
  set_remove-Has given =
      let r =
        table_remove-Removed set_entry_size gc_alloc s key (omega arith) (omega arith) heap v
          given in
      (
        record {
          valid = r.valid;
          has = λ k.
              ap is_some (r.finds k) ∙ none_and (rt_streq (some key) (some k)) (table_find s k);
        },
        r.tells,
        r.counts ∙ counted (table_find s key),
      )
    where
      counted :
          (o : Option (Unit {0}))
          → elim o [ none ↦ s.count | some u ↦ s.count - 1 ]
            ≡ (if (elim o [ none ↦ false | some u ↦ true ]) then s.count - 1 else s.count)
      counted none = refl
      counted (some u) = refl

-- A valid set that is cleared is valid, and has no key.
pub set_clear-Has : (s : KnSet) → IsTable set_entry_size s → Has (set_clear s) (λ k. false)
unfolding set_clear contains table_find
set_clear-Has s (IsTable.unborn c n e) =
    rw c (record { valid = IsTable.unborn refl refl e; has = λ k. refl })
set_clear-Has s (IsTable.live least fits counted room v) =
    let some_slots : (s.cap == 0) ≡ false = ground (arith, least) in
    rw some_slots (record {
      valid =
          IsTable.live least fits (sym (used-cleared (Unit {0}) s.cap)) (omega (arith, least))
            (cleared-IsSlots v.power);
      has = λ k. ap is_some (
          find_live (record s { count = 0; entries = cleared s.cap }) least k
          ∙ cleared_finds s.cap v.power k);
    })
