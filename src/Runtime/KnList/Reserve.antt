-- ===== src/Runtime/KnList/Reserve.antt =====
-- Making room in a list (libs/runtime/src/kn_runtime.c, list_reserve).
use kinal.Prelude.{
  ℕ, zero, suc, ◌+◌, ◌-◌, ◌*◌, ◌%◌, ◌^◌, ◌≤◌, ◌<◌, Bool, true, false, if◌then◌else◌, ◌++◌, length,
  take, ltb, leb, ◌==◌, ◌≡◌, refl, sym, ap, subst, ◌∙◌, arith, inl, inr, Bool-cases, ◌⊎◌,
  length-append, take-length-append,
}
use kinal.Runtime.KnList.{KnList, zeroed, reserved_cap, list_reserve}
use kinal.Runtime.KnList.Contents.{contents, IsList, length-take}
use kinal.Runtime.Table.{round_up}
use kinal.Runtime.Table.Moves.{IsBounded}

length-zeroed : (n : ℕ) → length (zeroed n) ≡ n
unfolding zeroed
length-zeroed zero = refl
length-zeroed (suc n) = ap suc (length-zeroed n)

-- The capacity behind `cap`.
abbrev pub next_cap : ℕ → ℕ
next_cap cap = if cap == 0 then 8 else cap * 2

round_stop : (n p want : ℕ) → want ≤ p → round_up n p want ≡ p
unfolding round_up
round_stop zero p want h = refl
round_stop (suc n) p want h = ground (arith, h)

round_next : (n p want : ℕ) → p < want → round_up (suc n) p want ≡ round_up n (p * 2 % 2 ^ 64) want
unfolding round_up
round_next n p want h = ground (arith, h)

reserved_cap-next_cap : (cap : ℕ) → cap ≤ 2 ^ 45 → reserved_cap cap (cap + 1) ≡ next_cap cap
unfolding reserved_cap
reserved_cap-next_cap zero h = round_stop 64 8 1 (omega arith)
reserved_cap-next_cap (suc c) h =
    let twice : suc c * 2 % 2 ^ 64 ≡ suc c * 2 = omega (arith, h) in
    let some_cap : (suc c == 0) ≡ false = ground arith in
    rw some_cap (
      round_next 63 (suc c) (suc c + 1) (omega arith)
      ∙ ap (λ p. round_up 63 p (suc c + 1)) twice
      ∙ round_stop 63 (suc c * 2) (suc c + 1) (omega arith))

-- The list has room for one more element.
pub record Roomy (l r : KnList) : Type 0 where
  pub valid : IsList r
  pub counts : r.count ≡ l.count
  pub room : r.count < r.cap
  pub holds : contents r ≡ contents l

module _ (gc_alloc : ℕ → Bool) (heap : IsBounded gc_alloc) (l : KnList) (v : IsList l) where
  -- There is room for one more, or memory for the next capacity.
  abbrev pub Given : Type 0
  Given = (l.count < l.cap) ⊎ (gc_alloc (8 * next_cap l.cap) ≡ true)

  reserve_room : l.count < l.cap → list_reserve gc_alloc l (l.count + 1) ≡ l
  unfolding list_reserve
  reserve_room h = ground (arith, h)

  abbrev moved : KnList
  moved = record l {
    cap = next_cap l.cap;
    items = take l.count l.items ++ zeroed (next_cap l.cap - l.count);
  }

  reserve_given :
      l.count ≡ l.cap
      → gc_alloc (8 * next_cap l.cap) ≡ true
      → list_reserve gc_alloc l (l.count + 1) ≡ moved
  unfolding list_reserve
  reserve_given full given =
      let more : reserved_cap l.cap (l.count + 1) ≡ next_cap l.cap =
        ap (λ n. reserved_cap l.cap (n + 1)) full ∙ reserved_cap-next_cap l.cap v.small in
      let exact : 8 * next_cap l.cap % 2 ^ 64 ≡ 8 * next_cap l.cap = ground (arith, v.small) in
      let short : leb (l.count + 1) l.cap ≡ false = ground (arith, full) in
      rw short (rw more (rw exact (rw given refl)))

  moved-Roomy : l.count ≡ l.cap → gc_alloc (8 * next_cap l.cap) ≡ true → Roomy l moved
  unfolding contents
  moved-Roomy full given =
      let c = next_cap l.cap in
      let held = length-take l.count l.items (omega (arith, full, v.size)) in
      let wide : l.count < c = ground (arith, full) in
      let total : length (take l.count l.items ++ zeroed (c - l.count)) ≡ c = omega (
        arith,
        length-append (take l.count l.items) (zeroed (c - l.count)),
        length-zeroed (c - l.count),
        held,
        wide,
      ) in
      record {
        valid = record {
          within = omega (arith, wide);
          size = total;
          small = omega (arith, heap.bound (8 * c) given);
        };
        counts = refl;
        room = wide;
        holds =
            ap (λ n. take n (take l.count l.items ++ zeroed (c - l.count))) (sym held)
            ∙ take-length-append (take l.count l.items) (zeroed (c - l.count));
      }

  pub reserve-Roomy : Given → Roomy l (list_reserve gc_alloc l (l.count + 1))
  reserve-Roomy given = elim (Bool-cases (ltb l.count l.cap)) [
    | inl e ↦
        let h : l.count < l.cap = ground (arith, e) in
        subst (Roomy l) (sym (reserve_room h))
          (record { valid = v; counts = refl; room = h; holds = refl })
    | inr e ↦
        let full : l.count ≡ l.cap = ground (arith, e, v.within) in
        let g : gc_alloc (8 * next_cap l.cap) ≡ true = elim given [
          | inl h ↦ absurd (omega (arith, h, full))
          | inr g ↦ g
        ] in
        subst (Roomy l) (sym (reserve_given full g)) (moved-Roomy full g)
  ]
