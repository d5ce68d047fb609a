-- ===== src/FfiAbi.antt =====
-- The C boundary of the foreign function interface (apps/kinal/src/kn_ffi_abi.c,
-- apps/kinal/include/kn/ffi_abi.h), for the type kinds of apps/kinal/include/kn/ast.h.
-- A `Type` is its kind, the one field that this file reads.
pub mod Shape
mod Tests
use kinal.Prelude.{ℕ, Bool, true, false, not, ◌==◌, if◌then◌else◌}

pub data TypeKind : Type 0 where
  ty_void : TypeKind
  ty_bool : TypeKind
  ty_byte : TypeKind
  ty_char : TypeKind
  ty_int : TypeKind
  ty_float : TypeKind
  ty_f16 : TypeKind
  ty_f32 : TypeKind
  ty_f64 : TypeKind
  ty_f128 : TypeKind
  ty_i8 : TypeKind
  ty_i16 : TypeKind
  ty_i32 : TypeKind
  ty_i64 : TypeKind
  ty_u8 : TypeKind
  ty_u16 : TypeKind
  ty_u32 : TypeKind
  ty_u64 : TypeKind
  ty_isize : TypeKind
  ty_usize : TypeKind
  ty_string : TypeKind
  ty_any : TypeKind
  ty_null : TypeKind
  ty_ptr : TypeKind
  ty_array : TypeKind
  ty_package : TypeKind
  ty_class : TypeKind
  ty_struct : TypeKind
  ty_enum : TypeKind
  ty_unknown : TypeKind

pub data KnFfiAbiKind : Type 0 where
  abi_invalid : KnFfiAbiKind
  abi_void : KnFfiAbiKind
  abi_integer : KnFfiAbiKind
  abi_float : KnFfiAbiKind
  abi_pointer : KnFfiAbiKind

pub record KnFfiAbiType : Type 0 where
  pub kind : KnFfiAbiKind
  pub bits : ℕ
  pub is_signed : Bool
  pub is_bool : Bool

abbrev pub abi_type : KnFfiAbiKind → ℕ → Bool → Bool → KnFfiAbiType
abi_type kind bits is_signed is_bool = record {
  kind = kind;
  bits = bits;
  is_signed = is_signed;
  is_bool = is_bool;
}

-- A target that does not say 32 is a 64-bit one.
abbrev pub pointer_bits : ℕ → ℕ
pointer_bits target = if target == 32 then 32 else 64

unfoldable pub kn_ffi_abi_type : TypeKind → ℕ → KnFfiAbiType
kn_ffi_abi_type TypeKind.ty_void p = abi_type KnFfiAbiKind.abi_void 0 false false
kn_ffi_abi_type TypeKind.ty_bool p = abi_type KnFfiAbiKind.abi_integer 32 false true
kn_ffi_abi_type TypeKind.ty_byte p = abi_type KnFfiAbiKind.abi_integer 8 false false
kn_ffi_abi_type TypeKind.ty_char p = abi_type KnFfiAbiKind.abi_integer 8 false false
kn_ffi_abi_type TypeKind.ty_u8 p = abi_type KnFfiAbiKind.abi_integer 8 false false
kn_ffi_abi_type TypeKind.ty_i8 p = abi_type KnFfiAbiKind.abi_integer 8 true false
kn_ffi_abi_type TypeKind.ty_u16 p = abi_type KnFfiAbiKind.abi_integer 16 false false
kn_ffi_abi_type TypeKind.ty_i16 p = abi_type KnFfiAbiKind.abi_integer 16 true false
kn_ffi_abi_type TypeKind.ty_u32 p = abi_type KnFfiAbiKind.abi_integer 32 false false
kn_ffi_abi_type TypeKind.ty_int p = abi_type KnFfiAbiKind.abi_integer 32 true false
kn_ffi_abi_type TypeKind.ty_i32 p = abi_type KnFfiAbiKind.abi_integer 32 true false
kn_ffi_abi_type TypeKind.ty_u64 p = abi_type KnFfiAbiKind.abi_integer 64 false false
kn_ffi_abi_type TypeKind.ty_i64 p = abi_type KnFfiAbiKind.abi_integer 64 true false
kn_ffi_abi_type TypeKind.ty_isize p = abi_type KnFfiAbiKind.abi_integer (pointer_bits p) true false
kn_ffi_abi_type TypeKind.ty_usize p = abi_type KnFfiAbiKind.abi_integer (pointer_bits p) false false
kn_ffi_abi_type TypeKind.ty_f32 p = abi_type KnFfiAbiKind.abi_float 32 true false
kn_ffi_abi_type TypeKind.ty_float p = abi_type KnFfiAbiKind.abi_float 64 true false
kn_ffi_abi_type TypeKind.ty_f64 p = abi_type KnFfiAbiKind.abi_float 64 true false
kn_ffi_abi_type TypeKind.ty_string p =
    abi_type KnFfiAbiKind.abi_pointer (pointer_bits p) false false
kn_ffi_abi_type TypeKind.ty_ptr p = abi_type KnFfiAbiKind.abi_pointer (pointer_bits p) false false
kn_ffi_abi_type TypeKind.ty_array p = abi_type KnFfiAbiKind.abi_pointer (pointer_bits p) false false
kn_ffi_abi_type k p = abi_type KnFfiAbiKind.abi_invalid 0 false false

abbrev pub is_invalid : KnFfiAbiKind → Bool
is_invalid KnFfiAbiKind.abi_invalid = true
is_invalid KnFfiAbiKind.abi_void = false
is_invalid KnFfiAbiKind.abi_integer = false
is_invalid KnFfiAbiKind.abi_float = false
is_invalid KnFfiAbiKind.abi_pointer = false

unfoldable pub kn_ffi_abi_type_supported : TypeKind → ℕ → Bool
unfolding kn_ffi_abi_type
kn_ffi_abi_type_supported k p = not (is_invalid (kn_ffi_abi_type k p).kind)
