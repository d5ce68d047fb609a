-- ===== src/Runtime/Tests/Paths.antt =====
-- A list of paths that is sorted and extended.
use kinal.Prelude.{◌≡◌, refl, [], ◌∷◌, ◌++◌, codes, true, leb}
use kinal.Runtime.PathList.Sort.{IsSorted, Rearranged, path_list_sort-IsSorted}
use kinal.Runtime.PathList.{
  KnNativePathList, rt_path_compare, is_less, swap, larger, largest, sift_down, build_heap,
  take_largest, path_list_sort, path_list_push,
}

abbrev found : KnNativePathList
found = record {
  items = codes "src/b" ∷ codes "src" ∷ codes "src/a" ∷ codes "README" ∷ codes "src/b" ∷ [];
  cap = 32;
  cursor = 0;
}

found_sorted :
    (path_list_sort found).items
    ≡ codes "README" ∷ codes "src" ∷ codes "src/a" ∷ codes "src/b" ∷ codes "src/b" ∷ []
unfolding path_list_sort build_heap take_largest sift_down swap largest larger is_less
    rt_path_compare
found_sorted = refl

found_pushed :
    path_list_push (λ n. leb n 100) found (codes "x")
    ≡ (record found { items = found.items ++ (codes "x" ∷ []) }, true)
unfolding path_list_push
found_pushed = refl

path_list_sort-IsSorted_example :
    IsSorted (path_list_sort found).items
    × Rearranged found.items (path_list_sort found).items
    × ((path_list_sort found).cap ≡ found.cap)
    × ((path_list_sort found).cursor ≡ found.cursor)
path_list_sort-IsSorted_example = path_list_sort-IsSorted found
