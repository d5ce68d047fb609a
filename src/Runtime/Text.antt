-- ===== src/Runtime/Text.antt =====
-- The text functions of the runtime (libs/runtime/src/kn_runtime.c, rt_memcmp to rt_str_index_of
-- and __kn_text_contains to __kn_text_join, but for what stands in Trim). `text` is what stands at a pointer before its NUL, the
-- empty text for a null pointer: its length is what rt_strlen gives, and no function reads behind
-- it. An offset is a number, and `s + i` is `drop i s`. `gc_alloc` says whether so many bytes can
-- be had. A function that makes a list
-- is what it adds to the list, for which there is memory. A loop has as many rounds as the text has bytes, and one for its end.
pub mod Matches
pub mod Replace
pub mod Results
pub mod Join
pub mod Find
pub mod Trim
use Prim.Native.Nat.{Ordering}
use kinal.CString.{c_string, head0, tail0}
use kinal.Prelude.{
  ℕ, zero, suc, ◌+◌, ◌-◌, ◌*◌, ◌%◌, ◌/◌, ◌^◌, Bool, true, false, ◌&&◌, ◌||◌, not, if◌then◌else◌,
  Option, none, some, List, [], ◌∷◌, ◌++◌, Bytes, length, get_or, take, drop, map, ltb, leb, ◌==◌,
  codes,
}
use kinal.Runtime.KnList.{KnAny, KnList}

unfoldable pub text : Option Bytes → Bytes
unfolding c_string
text none = []
text (some s) = c_string s

unfoldable pub rt_memcmp : Bytes → Bytes → ℕ → Ordering
rt_memcmp x y zero = Ordering.eq
rt_memcmp x y (suc n) =
    let rest = rt_memcmp (tail0 x) (tail0 y) n in
    if not (head0 x == head0 y)
    then (if ltb (head0 x) (head0 y) then Ordering.lt else Ordering.gt)
    else rest

-- Whether `sub` stands at offset `i`.
unfoldable pub is_at : Bytes → ℕ → Bytes → Bool
is_at s i sub = elim (rt_memcmp (drop i s) sub (length sub)) [ Ordering.eq ↦ true | _ ↦ false ]

-- The loop of `rt_str_index_of` and `rt_str_contains` from `i` on.
unfoldable pub find_loop : ℕ → Bytes → Bytes → ℕ → Option ℕ
find_loop zero s sub i = none
find_loop (suc n) s sub i =
    let rest = find_loop n s sub (i + 1) in
    if leb (i + length sub) (length s) then (if is_at s i sub then some i else rest) else none

-- `none` is -1.
unfoldable pub text_index_of : Option Bytes → Option Bytes → Option ℕ
text_index_of p q =
    let s = text p in
    let sub = text q in
    if length sub == 0
    then some 0
    else if ltb (length s) (length sub)
    then none
    else find_loop (length s + 1) s sub 0

unfoldable pub text_contains : Option Bytes → Option Bytes → Bool
text_contains p q =
    let s = text p in
    let sub = text q in
    if length sub == 0
    then true
    else if ltb (length s) (length sub)
    then false
    else elim (find_loop (length s + 1) s sub 0) [ none ↦ false | some i ↦ true ]

unfoldable pub text_starts_with : Option Bytes → Option Bytes → Bool
text_starts_with p q =
    let s = text p in
    let prefix = text q in if ltb (length s) (length prefix) then false else is_at s 0 prefix

unfoldable pub text_ends_with : Option Bytes → Option Bytes → Bool
text_ends_with p q =
    let s = text p in
    let suffix = text q in
    if ltb (length s) (length suffix) then false else is_at s (length s - length suffix) suffix

-- The search from the end: `i` is one more than the offset that is tried next.
unfoldable pub find_last : Bytes → Bytes → ℕ → Option ℕ
find_last s sub zero = none
find_last s sub (suc i) = let rest = find_last s sub i in if is_at s i sub then some i else rest

unfoldable pub text_last_index_of : Option Bytes → Option Bytes → Option ℕ
text_last_index_of p q =
    let s = text p in
    let sub = text q in
    if length sub == 0
    then some (length s)
    else if ltb (length s) (length sub)
    then none
    else find_last s sub (length s - length sub + 1)

-- The loop of `__kn_text_count`, which `__kn_text_replace` runs too.
unfoldable pub count_loop : ℕ → Bytes → Bytes → ℕ → ℕ
count_loop zero s sub i = 0
count_loop (suc n) s sub i =
    let matched = count_loop n s sub (i + length sub) + 1 in
    let rest = count_loop n s sub (i + 1) in
    if leb (i + length sub) (length s) then (if is_at s i sub then matched else rest) else 0

unfoldable pub text_count : Option Bytes → Option Bytes → ℕ
text_count p q =
    let s = text p in
    let sub = text q in
    if length sub == 0 || ltb (length s) (length sub) then 0 else count_loop (length s + 1) s sub 0

-- The second loop of `__kn_text_replace`: what it writes from `i` on.
unfoldable pub write_loop : ℕ → Bytes → Bytes → Bytes → ℕ → Bytes
write_loop zero s from to i = []
write_loop (suc n) s from to i =
    let replaced = to ++ write_loop n s from to (i + length from) in
    let kept = get_or s i 0 ∷ write_loop n s from to (i + 1) in
    if ltb i (length s)
    then (if leb (i + length from) (length s) && is_at s i from then replaced else kept)
    else []

-- The size of the result of `__kn_text_replace`; none where it would not fit 64 bits.
unfoldable pub replaced_length : ℕ → ℕ → ℕ → ℕ → Option ℕ
replaced_length sn fn tn matches =
    if leb fn tn
    then if not (tn - fn == 0) && ltb ((2 ^ 64 - 1 - sn) / (tn - fn)) matches
      then none
      else some (sn + matches * (tn - fn))
    else some (sn - matches * (fn - tn))

-- The text of an element of a list: `texts` reads what stands at an address.
unfoldable pub part : (ℕ → Option Bytes) → KnAny → Bytes
part texts x = if x.tag == 5 then text (texts x.payload) else codes "<any>"

-- What the loop of `__kn_text_join` writes behind the first part.
unfoldable pub join_rest : Bytes → List Bytes → Bytes
join_rest glue [] = []
join_rest glue (p ∷ ps) = glue ++ (p ++ join_rest glue ps)

unfoldable pub join_parts : Bytes → List Bytes → Bytes
join_parts glue [] = []
join_parts glue (p ∷ ps) = p ++ join_rest glue ps

-- Its first loop, the size of the result.
unfoldable pub join_length : ℕ → List Bytes → ℕ
join_length glue_len [] = 0
join_length glue_len (p ∷ []) = length p
join_length glue_len (p ∷ q ∷ ps) = length p + glue_len + join_length glue_len (q ∷ ps)

module _ (gc_alloc : ℕ → Bool) where
  unfoldable pub rt_strdup_gc : Bytes → Option Bytes
  rt_strdup_gc s = if gc_alloc ((length s + 1) % 2 ^ 64) then some s else none

  unfoldable pub rt_slice_gc : Bytes → ℕ → ℕ → Option Bytes
  rt_slice_gc s begin len =
      let n = length s in
      let b = if ltb n begin then n else begin in
      let l = if ltb n ((b + len) % 2 ^ 64) then n - b else len in
      if gc_alloc ((l + 1) % 2 ^ 64) then some (take l (drop b s)) else none

  -- The parts that `__kn_text_split` adds to its list from `i` on; `start` is where the part begins.
  unfoldable pub split_loop : ℕ → Bytes → Bytes → ℕ → ℕ → List (Option Bytes)
  split_loop zero s sep start i = []
  split_loop (suc n) s sep start i =
      let matched =
        rt_slice_gc s start (i - start) ∷ split_loop n s sep (i + length sep) (i + length sep) in
      let rest = split_loop n s sep start (i + 1) in
      if leb (i + length sep) (length s)
      then (if is_at s i sep then matched else rest)
      else rt_slice_gc s start (length s - start) ∷ []

  unfoldable pub text_split : Option Bytes → Option Bytes → List (Option Bytes)
  text_split p q =
      let s = text p in
      let sep = text q in
      if length sep == 0 then rt_strdup_gc s ∷ [] else split_loop (length s + 1) s sep 0 0

  unfoldable pub text_replace : Option Bytes → Option Bytes → Option Bytes → Option Bytes
  text_replace none q r = some []
  text_replace (some m) q r =
      let s = text (some m) in
      let from = text q in
      let to = text r in
      let matches = count_loop (length s + 1) s from 0 in
      if length from == 0
      then rt_strdup_gc s
      else if matches == 0
      then rt_strdup_gc s
      else elim (replaced_length (length s) (length from) (length to) matches) [
        | none ↦ some []
        | some out_len ↦
            if gc_alloc ((out_len + 1) % 2 ^ 64)
            then some (write_loop (length s + 1) s from to 0)
            else some []
      ]

  -- The parts of a list, one after another with the glue between them.
  unfoldable pub text_join : (ℕ → Option Bytes) → KnList → Option Bytes → Bytes
  text_join texts l q =
      let parts = map (part texts) (take l.count l.items) in
      let glue = text q in
      if gc_alloc ((join_length (length glue) parts + 1) % 2 ^ 64)
      then join_parts glue parts
      else []
