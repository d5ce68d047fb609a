-- ===== src/Lexer/Keywords.antt =====
-- The keyword table of apps/kinal/src/kn_lexer.c and its search.
pub mod Exact
use kinal.CString.{Ordering, kn_strlen, kn_strncmp}
use kinal.Lexer.Token.{TokenType}
use kinal.Prelude.{
  ℕ, Bool, true, false, ◌&&◌, List, [], ◌∷◌, some, ◌==◌, if◌then◌else◌, Bytes, codes,
}

pub record Kw : Type 0 where
  pub kw : Bytes
  pub type : TokenType

abbrev entry : Bytes → TokenType → Kw
entry k t = record { kw = k; type = t }

abbrev pub g_keywords : List Kw
g_keywords =
    entry (codes "Unit") TokenType.tok_unit
    ∷ entry (codes "Get") TokenType.tok_get
    ∷ entry (codes "Set") TokenType.tok_set
    ∷ entry (codes "Alias") TokenType.tok_alias
    ∷ entry (codes "By") TokenType.tok_by
    ∷ entry (codes "Property") TokenType.tok_property
    ∷ entry (codes "Function") TokenType.tok_function
    ∷ entry (codes "Extern") TokenType.tok_extern
    ∷ entry (codes "Return") TokenType.tok_return
    ∷ entry (codes "If") TokenType.tok_if
    ∷ entry (codes "Else") TokenType.tok_else
    ∷ entry (codes "ElseIf") TokenType.tok_elseif
    ∷ entry (codes "While") TokenType.tok_while
    ∷ entry (codes "For") TokenType.tok_for
    ∷ entry (codes "Foreach") TokenType.tok_foreach
    ∷ entry (codes "Switch") TokenType.tok_switch
    ∷ entry (codes "Case") TokenType.tok_case
    ∷ entry (codes "Break") TokenType.tok_break
    ∷ entry (codes "Continue") TokenType.tok_continue
    ∷ entry (codes "Try") TokenType.tok_try
    ∷ entry (codes "Catch") TokenType.tok_catch
    ∷ entry (codes "Throw") TokenType.tok_throw
    ∷ entry (codes "Class") TokenType.tok_class
    ∷ entry (codes "Interface") TokenType.tok_interface
    ∷ entry (codes "Struct") TokenType.tok_struct
    ∷ entry (codes "Enum") TokenType.tok_enum
    ∷ entry (codes "Public") TokenType.tok_public
    ∷ entry (codes "Private") TokenType.tok_private
    ∷ entry (codes "Protected") TokenType.tok_protected
    ∷ entry (codes "Internal") TokenType.tok_internal
    ∷ entry (codes "Static") TokenType.tok_static
    ∷ entry (codes "Virtual") TokenType.tok_virtual
    ∷ entry (codes "Override") TokenType.tok_override
    ∷ entry (codes "Abstract") TokenType.tok_abstract
    ∷ entry (codes "Sealed") TokenType.tok_sealed
    ∷ entry (codes "Constructor") TokenType.tok_constructor
    ∷ entry (codes "New") TokenType.tok_new
    ∷ entry (codes "This") TokenType.tok_this
    ∷ entry (codes "Base") TokenType.tok_base
    ∷ entry (codes "Block") TokenType.tok_block
    ∷ entry (codes "Record") TokenType.tok_record
    ∷ entry (codes "Jump") TokenType.tok_jump
    ∷ entry (codes "Delegate") TokenType.tok_delegate
    ∷ entry (codes "Const") TokenType.tok_const
    ∷ entry (codes "Var") TokenType.tok_var
    ∷ entry (codes "Safe") TokenType.tok_safe
    ∷ entry (codes "Trusted") TokenType.tok_trusted
    ∷ entry (codes "Unsafe") TokenType.tok_unsafe
    ∷ entry (codes "Async") TokenType.tok_async
    ∷ entry (codes "Await") TokenType.tok_await
    ∷ entry (codes "true") TokenType.tok_true
    ∷ entry (codes "false") TokenType.tok_false
    ∷ entry (codes "Is") TokenType.tok_is
    ∷ entry (codes "In") TokenType.tok_in
    ∷ entry (codes "default") TokenType.tok_default
    ∷ entry (codes "null") TokenType.tok_null
    ∷ entry (codes "void") TokenType.tok_type_void
    ∷ entry (codes "bool") TokenType.tok_type_bool
    ∷ entry (codes "byte") TokenType.tok_type_byte
    ∷ entry (codes "char") TokenType.tok_type_char
    ∷ entry (codes "int") TokenType.tok_type_int
    ∷ entry (codes "float") TokenType.tok_type_float
    ∷ entry (codes "f16") TokenType.tok_type_f16
    ∷ entry (codes "f32") TokenType.tok_type_f32
    ∷ entry (codes "f64") TokenType.tok_type_f64
    ∷ entry (codes "f128") TokenType.tok_type_f128
    ∷ entry (codes "i8") TokenType.tok_type_i8
    ∷ entry (codes "i16") TokenType.tok_type_i16
    ∷ entry (codes "i32") TokenType.tok_type_i32
    ∷ entry (codes "i64") TokenType.tok_type_i64
    ∷ entry (codes "u8") TokenType.tok_type_u8
    ∷ entry (codes "u16") TokenType.tok_type_u16
    ∷ entry (codes "u32") TokenType.tok_type_u32
    ∷ entry (codes "u64") TokenType.tok_type_u64
    ∷ entry (codes "isize") TokenType.tok_type_isize
    ∷ entry (codes "usize") TokenType.tok_type_usize
    ∷ entry (codes "string") TokenType.tok_type_string
    ∷ entry (codes "any") TokenType.tok_type_any
    ∷ []

-- `kn_strncmp(s, kw, len) == 0`
abbrev pub is_equal : Ordering → Bool
is_equal Ordering.eq = true
is_equal _ = false

-- The test of a round: the keyword's length, then its bytes.
unfoldable pub is_match : Kw → Bytes → ℕ → Bool
is_match k s len =
    let klen = kn_strlen (some k.kw) in
    klen == len && is_equal (kn_strncmp (some s) (some k.kw) len)

unfoldable pub kw_search : List Kw → Bytes → ℕ → TokenType
kw_search [] s len = TokenType.tok_id
kw_search (k ∷ ks) s len = if is_match k s len then k.type else kw_search ks s len

-- `s` is the memory from the word's first byte on.
unfoldable pub kw_lookup : Bytes → ℕ → TokenType
unfolding kw_search is_match
kw_lookup s len = kw_search g_keywords s len
