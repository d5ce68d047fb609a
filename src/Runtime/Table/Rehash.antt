-- ===== src/Runtime/Table/Rehash.antt =====
-- Moving a table to new slots (libs/runtime/src/kn_runtime.c, dict_rehash and set_rehash).
use kinal.Prelude.{
  ℕ, zero, suc, ◌+◌, ◌≤◌, ◌<◌, false, Option, none, some, [], ◌∷◌, Bytes, length, set, ◌≡◌, refl,
  sym, ap, ◌∙◌, arith, Bool-cases, inl, inr,
}
use kinal.Runtime.Mask.{IsPower}
use kinal.Runtime.Strings.{rt_streq, rt_streq_refl}
use kinal.Runtime.Table.{Slots, slot_at, find_slot, find_value, cleared, copy_slot, copy_slots}
use kinal.Runtime.Table.Slots.{used}
use kinal.Runtime.Table.Stored.{IsSlots, find_value-hit, find_slot-found}
use kinal.Runtime.Table.Put.{insert-IsSlots, insert-used, insert-find_value}
use kinal.Runtime.Table.Reference.{first_value, Apart, first_value_streq}

abbrev pub or_else {ℓ} : {A : Type ℓ} → Option A → Option A → Option A
or_else none b = b
or_else (some a) b = some a

length-cleared {ℓ} : (V : Type ℓ) (n : ℕ) → length (cleared {V = V} n) ≡ n
unfolding cleared
length-cleared V zero = refl
length-cleared V (suc n) = ap suc (length-cleared V n)

pub used-cleared {ℓ} : (V : Type ℓ) (n : ℕ) → used (cleared {V = V} n) ≡ 0
unfolding cleared used
used-cleared V zero = refl
used-cleared V (suc n) = used-cleared V n

module _ {ℓ} {V : Type ℓ} where
  cleared_slot : (n i : ℕ) → slot_at (cleared {V = V} n) i ≡ none
  unfolding cleared
  cleared_slot zero i = refl
  cleared_slot (suc n) zero = refl
  cleared_slot (suc n) (suc i) = cleared_slot n i

  pub cleared-IsSlots : {cap : ℕ} → IsPower cap → IsSlots cap (cleared {V = V} cap)
  cleared-IsSlots {cap = cap} p = record {
    power = p;
    size = length-cleared V cap;
    self = λ i e f. absurd (cc (cleared_slot cap i, f));
  }

  pub first_value-cleared : (n : ℕ) (k : Bytes) → first_value (cleared {V = V} n) k ≡ none
  unfolding cleared first_value
  first_value-cleared zero k = refl
  first_value-cleared (suc n) k = first_value-cleared n k

-- A key that has no value is not found.
not_found {ℓ} :
    {V : Type ℓ} (cap : ℕ) (es : Slots V)
    → IsSlots cap es
    → (k : Bytes) → find_value es cap k ≡ none
    → (find_slot es cap k).0 ≡ false
not_found cap es v k h = elim (Bool-cases (find_slot es cap k).0) [
  | inl found ↦
      let (e, f, s) = find_slot-found cap es v k found in
      absurd (cc (find_value-hit cap es v k (find_slot es cap k).1 e f s, h))
  | inr missed ↦ missed
]

-- What the loop over the old slots makes of new ones.
pub record Copied {ℓ} {V : Type ℓ} (cap : ℕ) (es old new : Slots V) : Type ℓ where
  pub valid : IsSlots cap new
  pub counted : used new ≡ used es + used old
  pub finds : (k : Bytes) → find_value new cap k ≡ or_else (first_value old k) (find_value es cap k)

module _ {ℓ} {V : Type ℓ} (cap : ℕ) where
  pub copy_slots-Copied :
      (old es : Slots V)
      → IsSlots cap es
      → used es + used old ≤ cap
      → Apart old
      → ((k : Bytes) (w : V) → first_value old k ≡ some w → find_value es cap k ≡ none)
      → Copied cap es old (copy_slots cap es old)
  unfolding copy_slots copy_slot first_value used
  copy_slots-Copied [] es v room apart fresh = record {
    valid = v;
    counted = omega arith;
    finds = λ k. refl;
  }
  copy_slots-Copied (none ∷ old) es v room apart fresh =
      let c = copy_slots-Copied old es v room apart fresh in
      record { valid = c.valid; counted = c.counted; finds = c.finds }
  copy_slots-Copied (some x ∷ old) es v room (single, apart) fresh =
      let es' = set es (find_slot es cap x.key).1 (some x) in
      let none_yet = fresh x.key x.value (rw (rt_streq_refl x.key) refl) in
      let missed = not_found cap es v x.key none_yet in
      let space : used es < cap = omega (arith, room) in
      let counted = insert-used cap es v x space missed in
      let finds = insert-find_value cap es v x space missed in
      let later : (k : Bytes) (w : V)
          → first_value old k ≡ some w
          → rt_streq (some x.key) (some k) ≡ false =
        λ k w h. elim (Bool-cases (rt_streq (some x.key) (some k))) [
          | inl s ↦ absurd (cc (first_value_streq old x.key k s, single, h))
          | inr d ↦ d
        ] in
      let c =
        copy_slots-Copied old es' (insert-IsSlots cap es v x space missed)
          (omega (arith, counted, room)) apart
          (λ k w h. finds k ∙ rw (later k w h) (fresh k w (rw (later k w h) h))) in
      record {
        valid = c.valid;
        counted = omega (arith, c.counted, counted);
        finds = λ k. elim (Bool-cases (rt_streq (some x.key) (some k))) [
          | inl s ↦
              let empty = sym (first_value_streq old x.key k s) ∙ single in
              c.finds k ∙ rw s (rw empty (finds k ∙ rw s refl))
          | inr d ↦ c.finds k ∙ rw d (ap (or_else (first_value old k)) (finds k ∙ rw d refl))
        ];
      }
