-- ===== src/Runtime/PathList.antt =====
-- The lists of paths that a directory search makes (libs/runtime/src/kn_runtime.c, rt_path_compare
-- to rt_path_list_sort). A path is the text at its pointer, which is never null in a list; `count`
-- is the length of `items`, and `cap` the length of the array that holds them. A loop down the heap
-- has as many rounds as there are items.
pub mod Compare
pub mod Swap
pub mod Sift
pub mod Sort
use Prim.Native.Nat.{Ordering}
use kinal.CString.{head0, tail0}
use kinal.Prelude.{
  ℕ, zero, suc, ◌+◌, ◌-◌, ◌*◌, ◌%◌, ◌/◌, ◌^◌, Bool, true, false, ◌&&◌, ◌||◌, if◌then◌else◌, List,
  [], ◌∷◌, ◌++◌, Bytes, length, get_or, set, ltb, leb, ◌==◌,
}

pub record KnNativePathList : Type 0 where
  pub items : List Bytes
  pub cap : ℕ
  pub cursor : ℕ

-- The loop of `rt_path_compare` and the tests behind it.
unfoldable pub rt_path_compare : Bytes → Bytes → Ordering
rt_path_compare [] b = if 0 == head0 b then Ordering.eq else Ordering.lt
rt_path_compare (c ∷ a) b =
    let rest = rt_path_compare a (tail0 b) in
    if c == 0 || head0 b == 0
    then (if c == head0 b then Ordering.eq else if c == 0 then Ordering.lt else Ordering.gt)
    else if c == head0 b
    then rest
    else if ltb c (head0 b)
    then Ordering.lt
    else Ordering.gt

unfoldable pub is_less : Bytes → Bytes → Bool
is_less a b = elim (rt_path_compare a b) [ Ordering.lt ↦ true | _ ↦ false ]

abbrev pub item : List Bytes → ℕ → Bytes
item items i = get_or items i []

unfoldable pub swap : List Bytes → ℕ → ℕ → List Bytes
swap items i j = set (set items i (item items j)) j (item items i)

-- The larger of an item and one at another place, by its place.
unfoldable pub larger : List Bytes → ℕ → ℕ → ℕ
larger items i j = if is_less (item items i) (item items j) then j else i

unfoldable pub largest : List Bytes → ℕ → ℕ → ℕ
largest items root count =
    let child = root * 2 + 1 in
    let l = larger items root child in
    if ltb (child + 1) count then larger items l (child + 1) else l

unfoldable pub sift_down : ℕ → List Bytes → ℕ → ℕ → List Bytes
sift_down zero items root count = items
sift_down (suc n) items root count =
    let l = largest items root count in
    let rest = sift_down n (swap items root l) l count in
    if leb count (root * 2 + 1) then items else if l == root then items else rest

-- The first loop of the sort: every root from `start` down.
unfoldable pub build_heap : ℕ → List Bytes → List Bytes
build_heap zero items = items
build_heap (suc start) items =
    build_heap start (sift_down (length items) items start (length items))

-- The second: the largest item goes behind the heap, which ends at `end + 1`.
unfoldable pub take_largest : ℕ → List Bytes → List Bytes
take_largest zero items = items
take_largest (suc end) items =
    take_largest end (if end == 0 then items else sift_down (length items) (swap items 0 end) 0 end)

unfoldable pub path_list_sort : KnNativePathList → KnNativePathList
path_list_sort paths =
    let n = length paths.items in
    if ltb n 2
    then paths
    else record paths { items = take_largest n (build_heap (n / 2) paths.items) }

-- `rt_alloc` says whether so many bytes can be had.
module _ (rt_alloc : ℕ → Bool) where
  unfoldable pub path_list_push : KnNativePathList → Bytes → KnNativePathList × Bool
  path_list_push paths path =
      let count = length paths.items in
      let next_cap = if paths.cap == 0 then 32 else paths.cap * 2 % 2 ^ 64 in
      let pushed = paths.items ++ (path ∷ []) in
      if count == paths.cap
      then if ltb next_cap paths.cap || ltb ((2 ^ 64 - 1) / 8) next_cap
        then (paths, false)
        else if rt_alloc (8 * next_cap)
        then (record paths { items = pushed; cap = next_cap }, true)
        else (paths, false)
      else (record paths { items = pushed }, true)
