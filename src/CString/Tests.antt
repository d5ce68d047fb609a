-- ===== src/CString/Tests.antt =====
-- The string comparison on small texts.
use kinal.CString.{c_string, kn_strlen, strlen_loop, kn_strncmp, compare_bytes, kn_strcmp, Ordering}
use kinal.CString.Order.{lexicographic, kn_strcmp-lexicographic}
use kinal.Prelude.{some, codes, Bytes, ◌≡◌, refl}

abbrev less : Bytes → Bytes → Ordering
less a b = kn_strcmp (some a) (some b)

less_prefix : less (codes "ab") (codes "abc") ≡ Ordering.lt
unfolding kn_strcmp kn_strncmp kn_strlen strlen_loop compare_bytes
less_prefix = refl

less_byte : less (codes "abc") (codes "b") ≡ Ordering.lt
unfolding kn_strcmp kn_strncmp kn_strlen strlen_loop compare_bytes
less_byte = refl

kn_strcmp-lexicographic_example :
    less (codes "ab") (codes "abc") ≡ lexicographic (c_string (codes "ab")) (c_string (codes "abc"))
kn_strcmp-lexicographic_example = kn_strcmp-lexicographic (codes "ab") (codes "abc")
