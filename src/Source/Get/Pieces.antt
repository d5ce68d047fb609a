-- ===== src/Source/Get/Pieces.antt =====
-- The ends of a line that kn_source_get_line leaves out (apps/kinal/src/kn_source.c).
use kinal.Prelude.{
  ℕ, zero, suc, ◌+◌, ◌-◌, ◌≤◌, ◌<◌, Bool, false, ◌&&◌, if◌then◌else◌, [], ◌∷◌, ◌++◌, Bytes, length,
  get_or, take, drop, ◌==◌, All, ◌≡◌, ◌≢◌, refl, sym, ap, subst, ◌∙◌, arith, Bool-cases, inl, inr,
  ◌⊎◌, append_assoc, length-append, drop-length-append, take-length-append,
}
use kinal.Source.{at, skip_bom, drop_end}

-- A line without the carriage return of its line end.
unfoldable pub drop_return : Bytes → Bytes
drop_return [] = []
drop_return (c ∷ []) = if c == b'\r' then [] else c ∷ []
drop_return (c ∷ d ∷ s) = c ∷ drop_return (d ∷ s)

abbrev starts_bom : Bytes → Bool
starts_bom [] = false
starts_bom (a ∷ []) = false
starts_bom (a ∷ b ∷ []) = false
starts_bom (a ∷ b ∷ c ∷ s) = a == 239 && b == 187 && c == 191

-- The bytes in front of a line that are a byte order mark.
abbrev pub mark_length : ℕ → Bytes → ℕ
mark_length zero l = if starts_bom l then 3 else 0
mark_length (suc k) l = 0

-- What a diagnostic shows of a line: without the byte order mark, in the first one, and without the
-- line end.
abbrev pub shown : ℕ → Bytes → Bytes
shown k l = drop_return (drop (mark_length k l) l)

pub mark_length-le : (k : ℕ) (l : Bytes) → mark_length k l ≤ length l
mark_length-le (suc k) l = omega arith
mark_length-le zero [] = omega arith
mark_length-le zero (a ∷ []) = omega arith
mark_length-le zero (a ∷ b ∷ []) = omega arith
mark_length-le zero (a ∷ b ∷ c ∷ s) = ground arith

at-append : (p s : Bytes) (i j : ℕ) → i ≡ length p + j → at (p ++ s) i ≡ get_or s j 0
at-append [] s i j h = ap (λ k. get_or s k 0) (omega (arith, h))
at-append (c ∷ p) s zero j h = absurd (omega (arith, h))
at-append (c ∷ p) s (suc i) j h = at-append p s i j (omega (arith, h))

at_line-ne :
    (l b : Bytes) (j : ℕ) → j < length l → All (λ c. c ≢ b'\n') l → get_or (l ++ b) j 0 ≢ b'\n'
at_line-ne [] b j h a = absurd (omega (arith, h))
at_line-ne (c ∷ l) b zero h a = a.0
at_line-ne (c ∷ l) b (suc j) h a = at_line-ne l b j (omega (arith, h)) a.1

-- A list that is empty, or has a last element.
abbrev Snoc : Bytes → Type 0
Snoc m = (m ≡ []) ⊎ ((r : Bytes) × (x : ℕ) × (m ≡ r ++ (x ∷ [])))

snoc : (m : Bytes) → Snoc m
snoc [] = inl refl
snoc (c ∷ m) = elim (snoc m) [
  | inl e ↦ inr ([], c, ap (c ∷◌) e)
  | inr (r, x, e) ↦ inr (c ∷ r, x, ap (c ∷◌) e)
]

drop_return-snoc :
    (r : Bytes) (x : ℕ) → drop_return (r ++ (x ∷ [])) ≡ (if x == b'\r' then r else r ++ (x ∷ []))
unfolding drop_return
drop_return-snoc [] x = refl
drop_return-snoc (c ∷ []) x = ground arith
drop_return-snoc (c ∷ d ∷ r) x = ground (arith, drop_return-snoc (d ∷ r) x)

last_dropped :
    (pre r behind : Bytes) (x : ℕ)
    → let m = r ++ (x ∷ []) in
      let text = pre ++ (m ++ behind) in
      let from = length pre in
      take (drop_end text b'\r' from (from + length m) - from) (drop from text) ≡ drop_return m
unfolding drop_end
last_dropped pre r behind x =
    let m = r ++ (x ∷ []) in
    let text = pre ++ (m ++ behind) in
    let from = length pre in
    let size : length m ≡ length r + 1 = omega (arith, length-append r (x ∷ [])) in
    let opened : m ++ behind ≡ r ++ (x ∷ behind) = append_assoc r (x ∷ []) behind in
    let last : at text (from + length m - 1) ≡ x =
      at-append pre (m ++ behind) _ (length r) (omega (arith, size))
      ∙ ap (λ y. get_or y (length r) 0) opened
      ∙ at-append r (x ∷ behind) (length r) 0 (omega arith) in
    let here : drop from text ≡ m ++ behind = drop-length-append pre (m ++ behind) in
    rw (here, drop_return-snoc r x)
      (elim (Bool-cases (x == b'\r')) [
        | inl e ↦
            let n : drop_end text b'\r' from (from + length m) - from ≡ length r =
              ground (arith, last, size, e) in
            rw (n, e) (ap (take (length r)) opened ∙ take-length-append r (x ∷ behind))
        | inr e ↦
            let n : drop_end text b'\r' from (from + length m) - from ≡ length m =
              ground (arith, last, size, e) in
            rw (n, e) (take-length-append m behind)
      ])

-- The carriage return at the end of the line `m`, which stands behind `pre` and before `behind`.
pub return_dropped :
    (pre m behind : Bytes)
    → let text = pre ++ (m ++ behind) in
      let from = length pre in
      take (drop_end text b'\r' from (from + length m) - from) (drop from text) ≡ drop_return m
unfolding drop_end drop_return
return_dropped pre m behind = elim (snoc m) [
  | inl e ↦
      let text = pre ++ behind in
      let size : drop_end text b'\r' (length pre) (length pre + 0) - length pre ≡ 0 =
        ground arith in
      rw e (ap (λ n. take n (drop (length pre) text)) size)
  | inr (r, x, e) ↦ rw e (last_dropped pre r behind x)
]

-- The newline at the end of the line `l`.
pub newline_dropped :
    (pre l behind : Bytes) (from end : ℕ)
    → from ≤ length pre + length l
    → length pre ≤ from
    → All (λ c. c ≢ b'\n') l
    → (behind ≡ [] × end ≡ length pre + length l)
      ⊎ ((t : Bytes) × behind ≡ b'\n' ∷ t × end ≡ length pre + length l + 1)
    → drop_end (pre ++ (l ++ behind)) b'\n' from end ≡ length pre + length l
unfolding drop_end
newline_dropped pre l behind from end h h' a b =
    let text = pre ++ (l ++ behind) in
    elim b [
      | inl (eb, ee) ↦
          let q : from < end → at text (end - 1) ≢ b'\n' = λ less.
            subst (λ c. c ≢ b'\n')
              (sym (
                at-append pre (l ++ behind) (end - 1) (length l - 1) (omega (arith, ee, less, h'))))
              (at_line-ne l behind (length l - 1) (omega (arith, ee, less, h')) a) in
          ground (arith, q, ee)
      | inr (t, eb, ee) ↦
          let q : at text (end - 1) ≡ b'\n' =
            at-append pre (l ++ behind) (end - 1) (length l) (omega (arith, ee))
            ∙ at-append l behind (length l) 0 (omega arith)
            ∙ ap (λ y. get_or y 0 0) eb in
          ground (arith, q, ee, h)
    ]

-- Behind the first line stands no byte of a byte order mark.
mark_first :
    (l behind : Bytes) (end : ℕ)
    → get_or behind 0 0 ≤ 10
    → length l ≤ end
    → skip_bom (l ++ behind) 1 0 end ≡ mark_length 0 l
unfolding skip_bom
mark_first [] behind end h e = ground (arith, h, e)
mark_first (a ∷ []) behind end h e = ground (arith, h, e)
mark_first (a ∷ b ∷ []) behind end h e = ground (arith, h, e)
mark_first (a ∷ b ∷ c ∷ l) behind end h e = ground (arith, h, e)

pub mark_skipped :
    (k : ℕ) (pre l behind : Bytes) (end : ℕ)
    → (k ≡ 0 → pre ≡ [])
    → (behind ≡ [] × end ≡ length pre + length l)
      ⊎ ((t : Bytes) × behind ≡ b'\n' ∷ t × end ≡ length pre + length l + 1)
    → skip_bom (pre ++ (l ++ behind)) (suc k) (length pre) end ≡ length pre + mark_length k l
unfolding skip_bom
mark_skipped (suc k) pre l behind end f b = ground arith
mark_skipped zero pre l behind end f b =
    let next : get_or behind 0 0 ≤ 10 = elim b [
      | inl (eb, ee) ↦ rw eb (omega arith)
      | inr (t, eb, ee) ↦ rw eb (omega arith)
    ] in
    let long : length l ≤ end = elim b [
      | inl (eb, ee) ↦ omega (arith, ee)
      | inr (t, eb, ee) ↦ omega (arith, ee)
    ] in
    rw (f refl) (mark_first l behind end next long ∙ omega arith)
