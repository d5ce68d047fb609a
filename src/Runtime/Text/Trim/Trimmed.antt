-- ===== src/Runtime/Text/Trim/Trimmed.antt =====
-- What trimming leaves of a text (libs/runtime/src/kn_runtime.c, __kn_text_trim).
use kinal.Prelude.{
  ℕ, zero, suc, ◌+◌, ◌-◌, ◌^◌, ◌≤◌, ◌<◌, Bool, true, false, some, Bytes, length, get_or, take, drop,
  ltb, ◌==◌, ◌≡◌, refl, ap, ◌∙◌, arith, Bool-cases, inl, inr,
}
use kinal.Runtime.Text.{text}
use kinal.Runtime.Text.Replace.{slice_between}
use kinal.Runtime.Text.Trim.{is_blank, trim_begin, trim_end, text_trim}

-- `t` is `s` without the blanks at its ends.
pub record IsTrimmed (s t : Bytes) : Type 0 where
  pub from : ℕ
  pub to : ℕ
  pub order : from ≤ to
  pub within : to ≤ length s
  pub content : t ≡ take (to - from) (drop from s)
  pub front : (i : ℕ) → i < from → is_blank (get_or s i 0) ≡ true
  pub back : (i : ℕ) → to ≤ i → i < length s → is_blank (get_or s i 0) ≡ true
  pub first : from < to → is_blank (get_or s from 0) ≡ false
  pub last : from < to → is_blank (get_or s (to - 1) 0) ≡ false

record Begins (s : Bytes) (b : ℕ) : Type 0 where
  within : b ≤ length s
  front : (i : ℕ) → i < b → is_blank (get_or s i 0) ≡ true
  first : b < length s → is_blank (get_or s b 0) ≡ false

trim_begin-Begins :
    (n : ℕ) (s : Bytes) (b : ℕ)
    → length s - b ≤ n
    → b ≤ length s
    → ((i : ℕ) → i < b → is_blank (get_or s i 0) ≡ true)
    → Begins s (trim_begin n s b)
unfolding trim_begin
trim_begin-Begins zero s b h le v = record {
  within = le;
  front = v;
  first = λ lt. absurd (omega (arith, h, lt));
}
trim_begin-Begins (suc n) s b h le v = elim (Bool-cases (ltb b (length s))) [
  | inr e ↦ rw e (record { within = le; front = v; first = λ lt. absurd (ground (arith, e, lt)) })
  | inl e ↦ elim (Bool-cases (is_blank (get_or s b 0))) [
    | inr d ↦ rw e (rw d (record { within = le; front = v; first = λ lt. d }))
    | inl d ↦
        let lt : b < length s = ground (arith, e) in
        let more : (i : ℕ) → i < b + 1 → is_blank (get_or s i 0) ≡ true = λ i q.
          elim (Bool-cases (ltb i b)) [
            | inl w ↦ v i (ground (arith, w))
            | inr w ↦
                let at : i ≡ b = ground (arith, w, q) in ap (λ k. is_blank (get_or s k 0)) at ∙ d
          ] in
        rw e (rw d (trim_begin-Begins n s (b + 1) (omega (arith, h, lt)) (omega (arith, lt)) more))
  ]
]

record Ends (s : Bytes) (b e : ℕ) : Type 0 where
  order : b ≤ e
  within : e ≤ length s
  back : (i : ℕ) → e ≤ i → i < length s → is_blank (get_or s i 0) ≡ true
  last : b < e → is_blank (get_or s (e - 1) 0) ≡ false

trim_end-Ends :
    (s : Bytes) (b e : ℕ)
    → b ≤ e
    → e ≤ length s
    → ((i : ℕ) → e ≤ i → i < length s → is_blank (get_or s i 0) ≡ true)
    → Ends s b (trim_end s b e)
unfolding trim_end
trim_end-Ends s b zero le h v = record {
  order = le;
  within = h;
  back = v;
  last = λ lt. absurd (omega (arith, lt));
}
trim_end-Ends s b (suc e) le h v = elim (Bool-cases (ltb b (suc e))) [
  | inr q ↦
      rw q
        (record { order = le; within = h; back = v; last = λ lt. absurd (ground (arith, q, lt)) })
  | inl q ↦ elim (Bool-cases (is_blank (get_or s e 0))) [
    | inr d ↦
        let at : suc e - 1 ≡ e = omega arith in
        rw q (
          rw d (record {
            order = le;
            within = h;
            back = v;
            last = λ lt. ap (λ k. is_blank (get_or s k 0)) at ∙ d;
          }))
    | inl d ↦
        let lt : b ≤ e = ground (arith, q) in
        let more : (i : ℕ) → e ≤ i → i < length s → is_blank (get_or s i 0) ≡ true = λ i p r.
          elim (Bool-cases (i == e)) [
            | inl w ↦ let at : i ≡ e = ground (arith, w) in ap (λ k. is_blank (get_or s k 0)) at ∙ d
            | inr w ↦ v i (ground (arith, w, p)) r
          ] in
        rw q (rw d (trim_end-Ends s b e lt (omega (arith, h)) more))
  ]
]

-- With memory for more bytes than the text has, fewer than 2 ^ 62, trimming gives what is left of
-- the text without the blanks at its ends, which neither begins nor ends with a blank.
pub text_trim-IsTrimmed :
    (gc_alloc : ℕ → Bool) (most : ℕ)
    → ((n : ℕ) → n ≤ most → gc_alloc n ≡ true)
    → most < 2 ^ 62
    → (m : Bytes) → length (text (some m)) < most
    → (t : Bytes) × (text_trim gc_alloc (some m) ≡ some t) × IsTrimmed (text (some m)) t
unfolding text_trim
text_trim-IsTrimmed gc_alloc most plenty fits m h =
    let s = text (some m) in
    let b = trim_begin (length s) s 0 in
    let e = trim_end s b (length s) in
    let begins =
      trim_begin-Begins (length s) s 0 (omega arith) (omega arith)
        (λ i q. absurd (omega (arith, q))) in
    let ends =
      trim_end-Ends s b (length s) begins.within (omega arith)
        (λ i p q. absurd (omega (arith, p, q))) in
    (
      take (e - b) (drop b s),
      slice_between gc_alloc s (λ n q. plenty n (omega (arith, q, h))) (omega (arith, h, fits)) b e
          ends.order ends.within,
      record {
        from = b;
        to = e;
        order = ends.order;
        within = ends.within;
        content = refl;
        front = begins.front;
        back = ends.back;
        first = λ lt. begins.first (omega (arith, lt, ends.within));
        last = ends.last;
      },
    )
