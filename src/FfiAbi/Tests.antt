-- ===== src/FfiAbi/Tests.antt =====
-- The C boundary on a 32-bit target.
use kinal.FfiAbi.{TypeKind, KnFfiAbiKind, abi_type, kn_ffi_abi_type}
use kinal.Prelude.{false, ◌≡◌, refl}

usize_abi : kn_ffi_abi_type TypeKind.ty_usize 32 ≡ abi_type KnFfiAbiKind.abi_integer 32 false false
unfolding kn_ffi_abi_type
usize_abi = refl
