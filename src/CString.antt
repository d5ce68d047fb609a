-- ===== src/CString.antt =====
-- NUL-terminated strings and the comparisons of apps/kinal/src/kn_util.c. A `const char *` that may
-- be null is an `Option Bytes`; the list holds the memory from the pointer on, and what stands
-- beyond it reads as the terminator 0. An `int` of -1, 0 or 1 is an `Ordering`.
pub mod Order
mod Tests
use Prim.Native.Nat.{compare}
pub use Prim.Native.Nat.{Ordering}
use kinal.Prelude.{
  ℕ, zero, suc, ◌+◌, ◌<◌, Bool, true, false, List, [], ◌∷◌, Option, none, some, ltb, ◌==◌,
  if◌then◌else◌, Bytes, length, ◌≡◌, refl, codes, arith, All,
}

-- The bytes before the first NUL.
unfoldable pub c_string : Bytes → Bytes
c_string [] = []
c_string (c ∷ cs) = if c == 0 then [] else c ∷ c_string cs

-- A text that has no NUL in it.
abbrev pub NoNul : Bytes → Type 0
NoNul = All (λ c. 0 < c)

pub c_string-NoNul : (s : Bytes) → NoNul (c_string s)
unfolding c_string
c_string-NoNul [] = tt
c_string-NoNul (c ∷ cs) = ground (arith, c_string-NoNul cs)

pub c_string_id : (s : Bytes) → NoNul s → c_string s ≡ s
unfolding c_string
c_string_id [] h = refl
c_string_id (c ∷ cs) h = ground (arith, c_string_id cs h.1)

-- `while (s && s[n]) n++;`
unfoldable pub strlen_loop : Bytes → ℕ
strlen_loop [] = 0
strlen_loop (c ∷ cs) = if c == 0 then 0 else suc (strlen_loop cs)

unfoldable pub kn_strlen : Option Bytes → ℕ
unfolding strlen_loop
kn_strlen none = 0
kn_strlen (some s) = strlen_loop s

pub strlen_loop-c_string : (s : Bytes) → strlen_loop s ≡ length (c_string s)
unfolding strlen_loop c_string
strlen_loop-c_string [] = refl
strlen_loop-c_string (c ∷ cs) = ground (arith, strlen_loop-c_string cs)

abbrev pub head0 : Bytes → ℕ
head0 [] = 0
head0 (c ∷ cs) = c

abbrev pub tail0 : Bytes → Bytes
tail0 [] = []
tail0 (c ∷ cs) = cs

-- The loop of `kn_strncmp` over the two memories and the bytes still allowed.
unfoldable pub compare_bytes : Bytes → Bytes → ℕ → Ordering
compare_bytes a b zero = Ordering.eq
compare_bytes a b (suc n) =
    let rest = compare_bytes (tail0 a) (tail0 b) n in
    let ac = head0 a in
    let bc = head0 b in
    if ac == bc
    then (if ac == 0 then Ordering.eq else rest)
    else if ltb ac bc
    then Ordering.lt
    else Ordering.gt

unfoldable pub kn_strncmp : Option Bytes → Option Bytes → ℕ → Ordering
unfolding compare_bytes
kn_strncmp none none n = Ordering.eq
kn_strncmp none (some b) n = Ordering.lt
kn_strncmp (some a) none n = Ordering.gt
kn_strncmp (some a) (some b) n = compare_bytes a b n

-- The end of `kn_strcmp`: the lengths decide where the common part is equal.
abbrev pub by_length : Ordering → ℕ → ℕ → Ordering
by_length Ordering.eq na nb =
    if na == nb then Ordering.eq else if ltb na nb then Ordering.lt else Ordering.gt
by_length c na nb = c

unfoldable pub kn_strcmp : Option Bytes → Option Bytes → Ordering
unfolding kn_strlen kn_strncmp
kn_strcmp a b =
    let na = kn_strlen a in
    let nb = kn_strlen b in by_length (kn_strncmp a b (if ltb na nb then na else nb)) na nb
