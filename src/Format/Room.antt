-- ===== src/Format/Room.antt =====
-- The room in the output buffer (apps/kinal/src/kn_format.c, fmt_buf_reserve).
use kinal.Format.Buffer.{FmtBuf, grow, fmt_buf_reserve}
use kinal.Prelude.{
  ℕ, zero, suc, ◌+◌, ◌*◌, ◌%◌, ◌^◌, Bool-cases, inl, inr, ◌≤◌, ◌<◌, if◌then◌else◌, length, ltb,
  ◌==◌, ◌≡◌, arith,
}

-- Rounds enough for what is missing make the capacity large enough, and it does not wrap.
grow-le : (n need cap : ℕ) → 0 < cap → need ≤ 2 ^ 63 → need ≤ cap + n → need ≤ grow n need cap
unfolding grow
grow-le zero need cap p small h = omega (arith, h)
grow-le (suc n) need cap p small h = elim (Bool-cases (ltb cap need)) [
  | inr e ↦ rw e (ground (arith, e))
  | inl e ↦
      let below : cap < need = ground (arith, e) in
      let cap' : ℕ = if ltb cap 4096 then cap * 2 % 2 ^ 64 else (cap + 4096) % 2 ^ 64 in
      let larger : cap + 1 ≤ cap' = ground (arith, p, below, small) in
      rw e (grow-le n need cap' (omega (arith, larger)) small (omega (arith, larger, h)))
]

-- For fewer than 2 ^ 63 bytes held and asked for, the buffer has room for them and for a NUL behind
-- them, and the bytes that it holds stay.
pub fmt_buf_reserve-le :
    (b : FmtBuf) (extra : ℕ)
    → length b.bytes + extra < 2 ^ 63
    → (length b.bytes + extra + 1 ≤ (fmt_buf_reserve b extra).cap)
      × ((fmt_buf_reserve b extra).bytes ≡ b.bytes)
unfolding fmt_buf_reserve
fmt_buf_reserve-le b extra small =
    let need = (length b.bytes + extra + 1) % 2 ^ 64 in
    let exact : need ≡ length b.bytes + extra + 1 = omega (arith, small) in
    let cap : ℕ = if b.cap == 0 then 256 else b.cap in
    let some_cap : 0 < cap = ground arith in
    let enough : need ≤ grow need need cap =
      grow-le need need cap some_cap (omega (arith, small, exact)) (omega (arith, some_cap)) in
    (ground (arith, enough, exact), ground arith)
