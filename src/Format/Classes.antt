-- ===== src/Format/Classes.antt =====
-- The token classes of apps/kinal/src/kn_format.c.
use kinal.Lexer.Token.{TokenType, ◌is◌}
use kinal.Prelude.{Bool, true, false, ◌&&◌, ◌||◌}

unfoldable pub fmt_token_is_word : TokenType → Bool
fmt_token_is_word TokenType.tok_id = true
fmt_token_is_word TokenType.tok_number = true
fmt_token_is_word TokenType.tok_string = true
fmt_token_is_word TokenType.tok_bad_string = true
fmt_token_is_word TokenType.tok_char_lit = true
fmt_token_is_word TokenType.tok_bad_char = true
fmt_token_is_word TokenType.tok_unit = true
fmt_token_is_word TokenType.tok_get = true
fmt_token_is_word TokenType.tok_set = true
fmt_token_is_word TokenType.tok_by = true
fmt_token_is_word TokenType.tok_property = true
fmt_token_is_word TokenType.tok_function = true
fmt_token_is_word TokenType.tok_async = true
fmt_token_is_word TokenType.tok_await = true
fmt_token_is_word TokenType.tok_return = true
fmt_token_is_word TokenType.tok_if = true
fmt_token_is_word TokenType.tok_else = true
fmt_token_is_word TokenType.tok_elseif = true
fmt_token_is_word TokenType.tok_while = true
fmt_token_is_word TokenType.tok_for = true
fmt_token_is_word TokenType.tok_switch = true
fmt_token_is_word TokenType.tok_case = true
fmt_token_is_word TokenType.tok_break = true
fmt_token_is_word TokenType.tok_continue = true
fmt_token_is_word TokenType.tok_try = true
fmt_token_is_word TokenType.tok_catch = true
fmt_token_is_word TokenType.tok_throw = true
fmt_token_is_word TokenType.tok_const = true
fmt_token_is_word TokenType.tok_var = true
fmt_token_is_word TokenType.tok_safe = true
fmt_token_is_word TokenType.tok_trusted = true
fmt_token_is_word TokenType.tok_unsafe = true
fmt_token_is_word TokenType.tok_extern = true
fmt_token_is_word TokenType.tok_class = true
fmt_token_is_word TokenType.tok_interface = true
fmt_token_is_word TokenType.tok_struct = true
fmt_token_is_word TokenType.tok_enum = true
fmt_token_is_word TokenType.tok_public = true
fmt_token_is_word TokenType.tok_private = true
fmt_token_is_word TokenType.tok_protected = true
fmt_token_is_word TokenType.tok_internal = true
fmt_token_is_word TokenType.tok_static = true
fmt_token_is_word TokenType.tok_virtual = true
fmt_token_is_word TokenType.tok_override = true
fmt_token_is_word TokenType.tok_abstract = true
fmt_token_is_word TokenType.tok_sealed = true
fmt_token_is_word TokenType.tok_constructor = true
fmt_token_is_word TokenType.tok_new = true
fmt_token_is_word TokenType.tok_this = true
fmt_token_is_word TokenType.tok_base = true
fmt_token_is_word TokenType.tok_block = true
fmt_token_is_word TokenType.tok_record = true
fmt_token_is_word TokenType.tok_jump = true
fmt_token_is_word TokenType.tok_delegate = true
fmt_token_is_word TokenType.tok_true = true
fmt_token_is_word TokenType.tok_false = true
fmt_token_is_word TokenType.tok_is = true
fmt_token_is_word TokenType.tok_default = true
fmt_token_is_word TokenType.tok_null = true
fmt_token_is_word TokenType.tok_type_void = true
fmt_token_is_word TokenType.tok_type_bool = true
fmt_token_is_word TokenType.tok_type_byte = true
fmt_token_is_word TokenType.tok_type_char = true
fmt_token_is_word TokenType.tok_type_int = true
fmt_token_is_word TokenType.tok_type_float = true
fmt_token_is_word TokenType.tok_type_f16 = true
fmt_token_is_word TokenType.tok_type_f32 = true
fmt_token_is_word TokenType.tok_type_f64 = true
fmt_token_is_word TokenType.tok_type_f128 = true
fmt_token_is_word TokenType.tok_type_i8 = true
fmt_token_is_word TokenType.tok_type_i16 = true
fmt_token_is_word TokenType.tok_type_i32 = true
fmt_token_is_word TokenType.tok_type_i64 = true
fmt_token_is_word TokenType.tok_type_u8 = true
fmt_token_is_word TokenType.tok_type_u16 = true
fmt_token_is_word TokenType.tok_type_u32 = true
fmt_token_is_word TokenType.tok_type_u64 = true
fmt_token_is_word TokenType.tok_type_isize = true
fmt_token_is_word TokenType.tok_type_usize = true
fmt_token_is_word TokenType.tok_type_string = true
fmt_token_is_word TokenType.tok_type_any = true
fmt_token_is_word _ = false

unfoldable pub fmt_token_can_end_expr : TokenType → Bool
fmt_token_can_end_expr TokenType.tok_id = true
fmt_token_can_end_expr TokenType.tok_number = true
fmt_token_can_end_expr TokenType.tok_string = true
fmt_token_can_end_expr TokenType.tok_bad_string = true
fmt_token_can_end_expr TokenType.tok_char_lit = true
fmt_token_can_end_expr TokenType.tok_bad_char = true
fmt_token_can_end_expr TokenType.tok_true = true
fmt_token_can_end_expr TokenType.tok_false = true
fmt_token_can_end_expr TokenType.tok_null = true
fmt_token_can_end_expr TokenType.tok_this = true
fmt_token_can_end_expr TokenType.tok_base = true
fmt_token_can_end_expr TokenType.tok_rparen = true
fmt_token_can_end_expr TokenType.tok_rbracket = true
fmt_token_can_end_expr TokenType.tok_plusplus = true
fmt_token_can_end_expr TokenType.tok_minusminus = true
fmt_token_can_end_expr _ = false

unfoldable pub fmt_token_is_initializer_context : TokenType → Bool
fmt_token_is_initializer_context TokenType.tok_assign = true
fmt_token_is_initializer_context TokenType.tok_comma = true
fmt_token_is_initializer_context TokenType.tok_lparen = true
fmt_token_is_initializer_context TokenType.tok_lbracket = true
fmt_token_is_initializer_context TokenType.tok_colon = true
fmt_token_is_initializer_context TokenType.tok_question = true
fmt_token_is_initializer_context TokenType.tok_return = true
fmt_token_is_initializer_context TokenType.tok_throw = true
fmt_token_is_initializer_context TokenType.tok_plus = true
fmt_token_is_initializer_context TokenType.tok_minus = true
fmt_token_is_initializer_context TokenType.tok_star = true
fmt_token_is_initializer_context TokenType.tok_slash = true
fmt_token_is_initializer_context TokenType.tok_percent = true
fmt_token_is_initializer_context TokenType.tok_plus_assign = true
fmt_token_is_initializer_context TokenType.tok_minus_assign = true
fmt_token_is_initializer_context TokenType.tok_star_assign = true
fmt_token_is_initializer_context TokenType.tok_slash_assign = true
fmt_token_is_initializer_context TokenType.tok_percent_assign = true
fmt_token_is_initializer_context TokenType.tok_eq = true
fmt_token_is_initializer_context TokenType.tok_ne = true
fmt_token_is_initializer_context TokenType.tok_lt = true
fmt_token_is_initializer_context TokenType.tok_le = true
fmt_token_is_initializer_context TokenType.tok_gt = true
fmt_token_is_initializer_context TokenType.tok_ge = true
fmt_token_is_initializer_context TokenType.tok_andand = true
fmt_token_is_initializer_context TokenType.tok_oror = true
fmt_token_is_initializer_context TokenType.tok_not = true
fmt_token_is_initializer_context TokenType.tok_amp = true
fmt_token_is_initializer_context TokenType.tok_bitor = true
fmt_token_is_initializer_context TokenType.tok_xor = true
fmt_token_is_initializer_context TokenType.tok_shl = true
fmt_token_is_initializer_context TokenType.tok_shr = true
fmt_token_is_initializer_context TokenType.tok_tilde = true
fmt_token_is_initializer_context TokenType.tok_by = true
fmt_token_is_initializer_context _ = false

unfoldable pub fmt_token_is_binary_operator : TokenType → Bool → TokenType → Bool
unfolding fmt_token_can_end_expr
fmt_token_is_binary_operator TokenType.tok_assign has_prev prev = true
fmt_token_is_binary_operator TokenType.tok_plus_assign has_prev prev = true
fmt_token_is_binary_operator TokenType.tok_minus_assign has_prev prev = true
fmt_token_is_binary_operator TokenType.tok_star_assign has_prev prev = true
fmt_token_is_binary_operator TokenType.tok_slash_assign has_prev prev = true
fmt_token_is_binary_operator TokenType.tok_percent_assign has_prev prev = true
fmt_token_is_binary_operator TokenType.tok_eq has_prev prev = true
fmt_token_is_binary_operator TokenType.tok_ne has_prev prev = true
fmt_token_is_binary_operator TokenType.tok_lt has_prev prev = true
fmt_token_is_binary_operator TokenType.tok_le has_prev prev = true
fmt_token_is_binary_operator TokenType.tok_gt has_prev prev = true
fmt_token_is_binary_operator TokenType.tok_ge has_prev prev = true
fmt_token_is_binary_operator TokenType.tok_andand has_prev prev = true
fmt_token_is_binary_operator TokenType.tok_oror has_prev prev = true
fmt_token_is_binary_operator TokenType.tok_bitor has_prev prev = true
fmt_token_is_binary_operator TokenType.tok_xor has_prev prev = true
fmt_token_is_binary_operator TokenType.tok_shl has_prev prev = true
fmt_token_is_binary_operator TokenType.tok_shr has_prev prev = true
fmt_token_is_binary_operator TokenType.tok_slash has_prev prev = true
fmt_token_is_binary_operator TokenType.tok_percent has_prev prev = true
fmt_token_is_binary_operator TokenType.tok_is has_prev prev = true
fmt_token_is_binary_operator TokenType.tok_plus has_prev prev =
    has_prev && fmt_token_can_end_expr prev
fmt_token_is_binary_operator TokenType.tok_minus has_prev prev =
    has_prev && fmt_token_can_end_expr prev
fmt_token_is_binary_operator TokenType.tok_star has_prev prev =
    has_prev && fmt_token_can_end_expr prev
fmt_token_is_binary_operator TokenType.tok_amp has_prev prev =
    has_prev && fmt_token_can_end_expr prev
fmt_token_is_binary_operator _ has_prev prev = false

unfoldable pub fmt_token_is_control_with_paren : TokenType → Bool
unfolding ◌is◌
fmt_token_is_control_with_paren t =
    t is TokenType.tok_if
    || t is TokenType.tok_elseif
    || t is TokenType.tok_for
    || t is TokenType.tok_while
    || t is TokenType.tok_switch
    || t is TokenType.tok_catch

unfoldable pub fmt_token_is_ambiguous_operator : TokenType → Bool
unfolding ◌is◌
fmt_token_is_ambiguous_operator t =
    t is TokenType.tok_plus
    || t is TokenType.tok_minus
    || t is TokenType.tok_star
    || t is TokenType.tok_amp
    || t is TokenType.tok_plusplus
    || t is TokenType.tok_minusminus
