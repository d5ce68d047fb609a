-- ===== src/Lexer/Token.antt =====
-- `TokenType` and `Token` of apps/kinal/include/kn/lexer.h.
use kinal.Prelude.{ℕ, Bool, ◌==◌}

pub data TokenType : Type 0 where
  tok_eof tok_id tok_number tok_string tok_bad_string tok_char_lit tok_bad_char tok_unit : TokenType
  tok_get tok_set tok_alias tok_by tok_property tok_function tok_return tok_if tok_else : TokenType
  tok_elseif tok_while tok_for tok_foreach tok_switch tok_case tok_break tok_continue : TokenType
  tok_try tok_catch tok_throw tok_const tok_var tok_safe tok_trusted tok_unsafe : TokenType
  tok_async tok_await tok_extern tok_class tok_interface tok_struct tok_enum tok_public : TokenType
  tok_private tok_protected tok_internal tok_static tok_virtual tok_override : TokenType
  tok_abstract tok_sealed tok_constructor tok_new tok_this tok_base tok_block tok_record : TokenType
  tok_jump tok_delegate tok_true tok_false tok_is tok_in tok_default tok_null : TokenType
  tok_type_void tok_type_bool tok_type_byte tok_type_char tok_type_int tok_type_float : TokenType
  tok_type_f16 tok_type_f32 tok_type_f64 tok_type_f128 tok_type_i8 tok_type_i16 : TokenType
  tok_type_i32 tok_type_i64 tok_type_u8 tok_type_u16 tok_type_u32 tok_type_u64 : TokenType
  tok_type_isize tok_type_usize tok_type_string tok_type_any tok_lparen tok_rparen : TokenType
  tok_lbrace tok_rbrace tok_lbracket tok_rbracket tok_comma tok_semi tok_dot tok_colon : TokenType
  tok_question tok_at tok_plus tok_minus tok_star tok_slash tok_percent tok_assign : TokenType
  tok_plusplus tok_minusminus tok_plus_assign tok_minus_assign tok_star_assign : TokenType
  tok_slash_assign tok_percent_assign tok_eq tok_ne tok_lt tok_le tok_gt tok_ge : TokenType
  tok_andand tok_oror tok_not tok_amp tok_bitor tok_xor tok_shl tok_shr tok_tilde : TokenType

-- The value of the enumerator, by which C compares token types.
unfoldable pub token_code : TokenType → ℕ
token_code tok_eof = 0
token_code tok_id = 1
token_code tok_number = 2
token_code tok_string = 3
token_code tok_bad_string = 4
token_code tok_char_lit = 5
token_code tok_bad_char = 6
token_code tok_unit = 7
token_code tok_get = 8
token_code tok_set = 9
token_code tok_alias = 10
token_code tok_by = 11
token_code tok_property = 12
token_code tok_function = 13
token_code tok_return = 14
token_code tok_if = 15
token_code tok_else = 16
token_code tok_elseif = 17
token_code tok_while = 18
token_code tok_for = 19
token_code tok_foreach = 20
token_code tok_switch = 21
token_code tok_case = 22
token_code tok_break = 23
token_code tok_continue = 24
token_code tok_try = 25
token_code tok_catch = 26
token_code tok_throw = 27
token_code tok_const = 28
token_code tok_var = 29
token_code tok_safe = 30
token_code tok_trusted = 31
token_code tok_unsafe = 32
token_code tok_async = 33
token_code tok_await = 34
token_code tok_extern = 35
token_code tok_class = 36
token_code tok_interface = 37
token_code tok_struct = 38
token_code tok_enum = 39
token_code tok_public = 40
token_code tok_private = 41
token_code tok_protected = 42
token_code tok_internal = 43
token_code tok_static = 44
token_code tok_virtual = 45
token_code tok_override = 46
token_code tok_abstract = 47
token_code tok_sealed = 48
token_code tok_constructor = 49
token_code tok_new = 50
token_code tok_this = 51
token_code tok_base = 52
token_code tok_block = 53
token_code tok_record = 54
token_code tok_jump = 55
token_code tok_delegate = 56
token_code tok_true = 57
token_code tok_false = 58
token_code tok_is = 59
token_code tok_in = 60
token_code tok_default = 61
token_code tok_null = 62
token_code tok_type_void = 63
token_code tok_type_bool = 64
token_code tok_type_byte = 65
token_code tok_type_char = 66
token_code tok_type_int = 67
token_code tok_type_float = 68
token_code tok_type_f16 = 69
token_code tok_type_f32 = 70
token_code tok_type_f64 = 71
token_code tok_type_f128 = 72
token_code tok_type_i8 = 73
token_code tok_type_i16 = 74
token_code tok_type_i32 = 75
token_code tok_type_i64 = 76
token_code tok_type_u8 = 77
token_code tok_type_u16 = 78
token_code tok_type_u32 = 79
token_code tok_type_u64 = 80
token_code tok_type_isize = 81
token_code tok_type_usize = 82
token_code tok_type_string = 83
token_code tok_type_any = 84
token_code tok_lparen = 85
token_code tok_rparen = 86
token_code tok_lbrace = 87
token_code tok_rbrace = 88
token_code tok_lbracket = 89
token_code tok_rbracket = 90
token_code tok_comma = 91
token_code tok_semi = 92
token_code tok_dot = 93
token_code tok_colon = 94
token_code tok_question = 95
token_code tok_at = 96
token_code tok_plus = 97
token_code tok_minus = 98
token_code tok_star = 99
token_code tok_slash = 100
token_code tok_percent = 101
token_code tok_assign = 102
token_code tok_plusplus = 103
token_code tok_minusminus = 104
token_code tok_plus_assign = 105
token_code tok_minus_assign = 106
token_code tok_star_assign = 107
token_code tok_slash_assign = 108
token_code tok_percent_assign = 109
token_code tok_eq = 110
token_code tok_ne = 111
token_code tok_lt = 112
token_code tok_le = 113
token_code tok_gt = 114
token_code tok_ge = 115
token_code tok_andand = 116
token_code tok_oror = 117
token_code tok_not = 118
token_code tok_amp = 119
token_code tok_bitor = 120
token_code tok_xor = 121
token_code tok_shl = 122
token_code tok_shr = 123
token_code tok_tilde = 124

infix 50 ◌is◌
unfoldable pub ◌is◌ : TokenType → TokenType → Bool
unfolding token_code
t is u = token_code t == token_code u

-- `start` is the offset of the C pointer from the source's first byte.
pub record Token : Type 0 where
  pub type : TokenType
  pub start : ℕ
  pub length : ℕ
  pub line : ℕ
  pub col : ℕ
