-- ===== src/Lexer/Trivia/Grammar.antt =====
-- The grammar of what stands between tokens, with no reference to the lexer.
use kinal.CString.{head0}
use kinal.Lexer.Trivia.{is_space}
use kinal.Prelude.{ℕ, Bool, true, false, ◌&&◌, ◌||◌, [], ◌∷◌, ◌++◌, ◌≡◌, ◌≢◌, ◌⊎◌, ◌==◌, Bytes, All}

-- Whether a text holds the end of a block comment.
abbrev pub has_close : Bytes → Bool
has_close [] = false
has_close (c ∷ cs) = (c == b'*' && head0 cs == b'/') || has_close cs

-- `w` is white space and comments, where `r` follows it. A line comment runs up to a newline or the
-- end of the input; a block comment up to the first end mark, or up to the end of the input.
pub data IsTrivia (r : Bytes) : Bytes → Type 0 where
  nothing : IsTrivia r []
  space : {c : ℕ} {w : Bytes} → is_space c ≡ true → IsTrivia r w → IsTrivia r (c ∷ w)
  line :
      {u w : Bytes} (body : Bytes)
      → All (λ c. c ≢ b'\n') body
      → (head0 (w ++ r) ≡ b'\n') ⊎ (w ++ r ≡ [])
      → IsTrivia r w
      → u ≡ b'/' ∷ b'/' ∷ (body ++ w)
      → IsTrivia r u
  block :
      {u w : Bytes} (body : Bytes)
      → has_close body ≡ false
      → IsTrivia r w
      → u ≡ b'/' ∷ b'*' ∷ (body ++ b'*' ∷ b'/' ∷ w)
      → IsTrivia r u
  open_block :
      {u : Bytes} (body : Bytes)
      → has_close body ≡ false
      → r ≡ []
      → u ≡ b'/' ∷ b'*' ∷ body
      → IsTrivia r u

pub IsTrivia-append :
    {r v : Bytes} (w : Bytes) → All (λ c. is_space c ≡ true) w → IsTrivia r v → IsTrivia r (w ++ v)
IsTrivia-append [] h t = t
IsTrivia-append (c ∷ w) h t = space h.0 (IsTrivia-append w h.1 t)
