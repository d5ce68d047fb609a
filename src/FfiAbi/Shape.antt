-- ===== src/FfiAbi/Shape.antt =====
-- The shape that every classification at the C boundary has (apps/kinal/src/kn_ffi_abi.c).
use kinal.FfiAbi.{TypeKind, KnFfiAbiKind, kn_ffi_abi_type, pointer_bits}
use kinal.Prelude.{ℕ, Bool, true, false, ◌≡◌, refl, ◌⊎◌, arith, inl, inr}

-- The widths of C's integers.
abbrev IsWidth : ℕ → Type 0
IsWidth n = n ≡ 8 ⊎ n ≡ 16 ⊎ n ≡ 32 ⊎ n ≡ 64

-- What a consumer of the description may rely on: an integer has a C width, and a Boolean is an
-- unsigned integer of 32 bits; a float is signed, of 32 or 64 bits; a pointer has the width of
-- the target's pointers; nothing else has a width, a sign or is a Boolean.
abbrev pub IsShaped : ℕ → KnFfiAbiKind → ℕ → Bool → Bool → Type 0
IsShaped p KnFfiAbiKind.abi_integer bits signed true = bits ≡ 32 × signed ≡ false
IsShaped p KnFfiAbiKind.abi_integer bits signed false = IsWidth bits
IsShaped p KnFfiAbiKind.abi_float bits signed bool =
    (bits ≡ 32 ⊎ bits ≡ 64) × signed ≡ true × bool ≡ false
IsShaped p KnFfiAbiKind.abi_pointer bits signed bool =
    bits ≡ pointer_bits p × signed ≡ false × bool ≡ false
IsShaped p KnFfiAbiKind.abi_void bits signed bool = bits ≡ 0 × signed ≡ false × bool ≡ false
IsShaped p KnFfiAbiKind.abi_invalid bits signed bool = bits ≡ 0 × signed ≡ false × bool ≡ false

pointer-IsWidth : (p : ℕ) → IsWidth (pointer_bits p)
pointer-IsWidth p = ground arith

-- On every target, every kind of type is classified with a description that has the width, the
-- sign and the Boolean flag that `IsShaped` asks for its class at the boundary.
pub abi_type-IsShaped :
    (k : TypeKind) (p : ℕ)
    → let a = kn_ffi_abi_type k p in IsShaped p a.kind a.bits a.is_signed a.is_bool
unfolding kn_ffi_abi_type
abi_type-IsShaped TypeKind.ty_void p = (refl, refl, refl)
abi_type-IsShaped TypeKind.ty_bool p = (refl, refl)
abi_type-IsShaped TypeKind.ty_byte p = inl refl
abi_type-IsShaped TypeKind.ty_char p = inl refl
abi_type-IsShaped TypeKind.ty_int p = inr (inr (inl refl))
abi_type-IsShaped TypeKind.ty_float p = (inr refl, refl, refl)
abi_type-IsShaped TypeKind.ty_f16 p = (refl, refl, refl)
abi_type-IsShaped TypeKind.ty_f32 p = (inl refl, refl, refl)
abi_type-IsShaped TypeKind.ty_f64 p = (inr refl, refl, refl)
abi_type-IsShaped TypeKind.ty_f128 p = (refl, refl, refl)
abi_type-IsShaped TypeKind.ty_i8 p = inl refl
abi_type-IsShaped TypeKind.ty_i16 p = inr (inl refl)
abi_type-IsShaped TypeKind.ty_i32 p = inr (inr (inl refl))
abi_type-IsShaped TypeKind.ty_i64 p = inr (inr (inr refl))
abi_type-IsShaped TypeKind.ty_u8 p = inl refl
abi_type-IsShaped TypeKind.ty_u16 p = inr (inl refl)
abi_type-IsShaped TypeKind.ty_u32 p = inr (inr (inl refl))
abi_type-IsShaped TypeKind.ty_u64 p = inr (inr (inr refl))
abi_type-IsShaped TypeKind.ty_isize p = pointer-IsWidth p
abi_type-IsShaped TypeKind.ty_usize p = pointer-IsWidth p
abi_type-IsShaped TypeKind.ty_string p = (refl, refl, refl)
abi_type-IsShaped TypeKind.ty_any p = (refl, refl, refl)
abi_type-IsShaped TypeKind.ty_null p = (refl, refl, refl)
abi_type-IsShaped TypeKind.ty_ptr p = (refl, refl, refl)
abi_type-IsShaped TypeKind.ty_array p = (refl, refl, refl)
abi_type-IsShaped TypeKind.ty_package p = (refl, refl, refl)
abi_type-IsShaped TypeKind.ty_class p = (refl, refl, refl)
abi_type-IsShaped TypeKind.ty_struct p = (refl, refl, refl)
abi_type-IsShaped TypeKind.ty_enum p = (refl, refl, refl)
abi_type-IsShaped TypeKind.ty_unknown p = (refl, refl, refl)
