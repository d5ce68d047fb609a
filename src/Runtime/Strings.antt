-- ===== src/Runtime/Strings.antt =====
-- The string helpers of the runtime (libs/runtime/src/kn_runtime.c, rt_strlen to rt_hash).
use Prim.Native.Nat.{bit_xor}
use kinal.CString.{c_string, head0, tail0}
use kinal.Prelude.{
  ℕ, ◌*◌, ◌%◌, ◌^◌, Bool, true, false, not, ◌&&◌, if◌then◌else◌, Option, none, some, [], ◌∷◌, ◌==◌,
  Bytes, ◌≡◌, refl, sym, ap, ◌∙◌, ◌↔◌, arith, Bool-cases, inl, inr,
}

-- The loop of `rt_streq` and the comparison behind it, for two pointers that are not null.
unfoldable pub streq_loop : Bytes → Bytes → Bool
streq_loop [] b = 0 == head0 b
streq_loop (c ∷ a) b =
    let rest = streq_loop a (tail0 b) in
    if not (c == 0) && not (head0 b == 0)
    then (if c == head0 b then rest else false)
    else c == head0 b

-- Equal pointers, which the code compares first, hold equal texts.
unfoldable pub rt_streq : Option Bytes → Option Bytes → Bool
unfolding streq_loop
rt_streq none none = true
rt_streq none (some b) = false
rt_streq (some a) none = false
rt_streq (some a) (some b) = streq_loop a b

-- FNV-1a, on 64 bits.
unfoldable pub hash_loop : Bytes → ℕ → ℕ
hash_loop [] h = h
hash_loop (c ∷ s) h =
    let rest = hash_loop s (bit_xor h c * 1099511628211 % 2 ^ 64) in if c == 0 then h else rest

unfoldable pub rt_hash : Option Bytes → ℕ
unfolding hash_loop
rt_hash none = 1469598103934665603
rt_hash (some s) = hash_loop s 1469598103934665603

streq_loop-c_string : (a b : Bytes) → streq_loop a b ≡ true → c_string a ≡ c_string b
unfolding streq_loop c_string
streq_loop-c_string [] [] h = refl
streq_loop-c_string [] (d ∷ b) h = ground (arith, h)
streq_loop-c_string (c ∷ a) [] h = ground (arith, h)
streq_loop-c_string (c ∷ a) (d ∷ b) h = ground (arith, streq_loop-c_string a b)

c_string-streq_loop : (a b : Bytes) → c_string a ≡ c_string b → streq_loop a b ≡ true
unfolding streq_loop c_string
c_string-streq_loop [] [] h = refl
c_string-streq_loop [] (d ∷ b) h = ground (arith, h)
c_string-streq_loop (c ∷ a) [] h = ground (arith, h)
c_string-streq_loop (c ∷ a) (d ∷ b) h = ground (arith, c_string-streq_loop a b)

-- Two pointers are equal for the runtime when their texts are.
pub rt_streq-c_string :
    (a b : Bytes) → (rt_streq (some a) (some b) ≡ true) ↔ (c_string a ≡ c_string b)
unfolding rt_streq
rt_streq-c_string a b = (streq_loop-c_string a b, c_string-streq_loop a b)

hash_loop-c_string : (s : Bytes) (h : ℕ) → hash_loop s h ≡ hash_loop (c_string s) h
unfolding hash_loop c_string
hash_loop-c_string [] h = refl
hash_loop-c_string (c ∷ s) h = elim (Bool-cases (c == 0)) [
  | inl e ↦ rw e refl
  | inr e ↦ rw e (rw e (hash_loop-c_string s _))
]

-- The relation by which the tables compare keys, and what they need of it.
module _ (a b : Bytes) (same : rt_streq (some a) (some b) ≡ true) where
  pub rt_hash-rt_streq : rt_hash (some a) ≡ rt_hash (some b)
  unfolding rt_hash
  rt_hash-rt_streq =
      hash_loop-c_string a _
      ∙ ap (λ s. hash_loop s 1469598103934665603) ((rt_streq-c_string a b).0 same)
      ∙ sym (hash_loop-c_string b _)

  pub rt_streq_swap : rt_streq (some b) (some a) ≡ true
  rt_streq_swap = (rt_streq-c_string b a).1 (sym ((rt_streq-c_string a b).0 same))

  pub rt_streq_trans :
      (c : Bytes) → rt_streq (some b) (some c) ≡ true → rt_streq (some a) (some c) ≡ true
  rt_streq_trans c next =
      (rt_streq-c_string a c).1 ((rt_streq-c_string a b).0 same ∙ (rt_streq-c_string b c).0 next)

pub rt_streq_refl : (a : Bytes) → rt_streq (some a) (some a) ≡ true
rt_streq_refl a = (rt_streq-c_string a a).1 refl

-- Equal keys compare alike to any other.
pub rt_streq_right :
    (c a b : Bytes)
    → rt_streq (some a) (some b) ≡ true
    → rt_streq (some c) (some a) ≡ rt_streq (some c) (some b)
rt_streq_right c a b same = elim (Bool-cases (rt_streq (some c) (some a))) [
  | inl e ↦ e ∙ sym (rt_streq_trans c a e b same)
  | inr e ↦ elim (Bool-cases (rt_streq (some c) (some b))) [
    | inl d ↦ cc (rt_streq_trans c b d a (rt_streq_swap a b same))
    | inr d ↦ e ∙ sym d
  ]
]

pub rt_streq_left :
    (a b c : Bytes)
    → rt_streq (some a) (some b) ≡ true
    → rt_streq (some a) (some c) ≡ rt_streq (some b) (some c)
rt_streq_left a b c same = elim (Bool-cases (rt_streq (some b) (some c))) [
  | inl e ↦ rt_streq_trans a b same c e ∙ sym e
  | inr e ↦ elim (Bool-cases (rt_streq (some a) (some c))) [
    | inl d ↦ cc (rt_streq_trans b a (rt_streq_swap a b same) c d)
    | inr d ↦ d ∙ sym e
  ]
]
