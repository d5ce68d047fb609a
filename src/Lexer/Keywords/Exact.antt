-- ===== src/Lexer/Keywords/Exact.antt =====
-- `kw_lookup` finds a keyword exactly where the word is its text.
use kinal.CString.{NoNul, strlen_loop, kn_strlen, compare_bytes, kn_strncmp}
use kinal.Lexer.Keywords.{Kw, g_keywords, is_equal, is_match, kw_search, kw_lookup}
use kinal.Lexer.Token.{TokenType}
use kinal.Prelude.{
  ltb, Bool, true, ◌&&◌, List, [], ◌∷◌, ◌++◌, ◌≡◌, ◌≢◌, ◌↔◌, refl, ap, arith, ◌==◌, Bool-cases, inl,
  inr, Bytes, length,
}

-- The search of a word in a table, by the texts alone: the first entry with the word's text, or an
-- identifier.
pub data Finds (w : Bytes) : List Kw → TokenType → Type 0 where
  found : {k : Kw} {ks : List Kw} {t : TokenType} → k.kw ≡ w → t ≡ k.type → Finds w (k ∷ ks) t
  later : {k : Kw} {ks : List Kw} {t : TokenType} → k.kw ≢ w → Finds w ks t → Finds w (k ∷ ks) t
  absent : {t : TokenType} → t ≡ TokenType.tok_id → Finds w [] t

is_text : Bytes → Bool
is_text [] = true
is_text (c ∷ cs) = ltb 0 c && is_text cs

are_texts : List Kw → Bool
are_texts [] = true
are_texts (k ∷ ks) = is_text k.kw && are_texts ks

strlen_loop-is_text : (s : Bytes) → is_text s ≡ true → strlen_loop s ≡ length s
unfolding strlen_loop is_text
strlen_loop-is_text [] h = refl
strlen_loop-is_text (c ∷ s) h = ground (arith, strlen_loop-is_text s)

compare_bytes-prefix :
    (w kw r : Bytes)
    → NoNul w
    → length kw ≡ length w
    → (is_equal (compare_bytes (w ++ r) kw (length w)) ≡ true) ↔ (kw ≡ w)
unfolding compare_bytes
compare_bytes-prefix [] [] r h e = ground arith
compare_bytes-prefix [] (y ∷ kw) r h e = absurd (omega arith)
compare_bytes-prefix (x ∷ w) [] r h e = absurd (omega arith)
compare_bytes-prefix (x ∷ w) (y ∷ kw) r h e =
    ground (arith, compare_bytes-prefix w kw r h.1 (omega arith))

is_match_iff :
    (k : Kw) (w r : Bytes)
    → NoNul w
    → is_text k.kw ≡ true
    → (is_match k (w ++ r) (length w) ≡ true) ↔ (k.kw ≡ w)
unfolding is_match kn_strlen kn_strncmp
is_match_iff k w r h t =
    rw (strlen_loop-is_text k.kw t) (elim (Bool-cases (length k.kw == length w)) [
      | inl e ↦ rw e (compare_bytes-prefix w k.kw r h (ground arith))
      | inr e ↦ rw e ((λ x. cc), λ q. absurd (ground (arith, ap length q)))
    ])

kw_search-Finds :
    (ks : List Kw) (w r : Bytes)
    → NoNul w
    → are_texts ks ≡ true
    → Finds w ks (kw_search ks (w ++ r) (length w))
unfolding kw_search are_texts
kw_search-Finds [] w r h t = absent refl
kw_search-Finds (k ∷ ks) w r h t =
    let here = is_match_iff k w r h (ground arith) in
    elim (Bool-cases (is_match k (w ++ r) (length w))) [
      | inl e ↦ rw e (found (here.0 e) refl)
      | inr e ↦ rw e (later (λ q. cc (here.1 q)) (kw_search-Finds ks w r h (ground arith)))
    ]

-- A word of no NUL gets the type of the first entry of the keyword table whose text it is, and is
-- an identifier if there is none, whatever stands behind the word.
pub kw_lookup-Finds : (w r : Bytes) → NoNul w → Finds w g_keywords (kw_lookup (w ++ r) (length w))
unfolding kw_lookup are_texts is_text
kw_lookup-Finds w r h = kw_search-Finds g_keywords w r h refl
