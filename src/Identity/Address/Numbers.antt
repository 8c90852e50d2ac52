-- ===== src/Identity/Address/Numbers.antt =====
-- The address as a number and as five bytes.
use zgalaxy_rs.Identity.Address.{
  Address, IsAddress, to_u64, from_u64, as_bytes, of_slice, is_reserved,
}
use zgalaxy_rs.Prelude.{ℕ, ◌≡◌, refl, ◌<◌, ◌%◌, ◌/◌, ◌^◌, ◌↔◌, true, some, [], ◌∷◌, length, arith}
use zgalaxy_rs.Prelude.Bytes.{Bytes, IsBytes}

-- An address survives the way through its 40-bit number, which is below 2^40; a number comes back
-- modulo 2^40, as an address of five bytes; and the reserved addresses are those from 0xff00000000.
pub from_u64-to_u64 :
    (a : Address) (v : ℕ)
    → IsAddress a
    → (from_u64 (to_u64 a) ≡ a)
      × (to_u64 a < 2 ^ 40)
      × (to_u64 (from_u64 v) ≡ v % 2 ^ 40)
      × IsAddress (from_u64 v)
      × ((is_reserved a ≡ true) ↔ (to_u64 a / 2 ^ 32 ≡ 0xff))
unfolding from_u64 to_u64 is_reserved
from_u64-to_u64 a v h = (ground arith, omega arith, omega arith, omega arith, ground arith)

pub of_slice-as_bytes : (a : Address) → of_slice (as_bytes a) ≡ some a
unfolding of_slice as_bytes
of_slice-as_bytes a = refl

pub as_bytes-of_slice :
    (bs : Bytes)
    → length bs ≡ 5
    → IsBytes bs
    → (a : Address) × (of_slice bs ≡ some a) × (as_bytes a ≡ bs) × IsAddress a
unfolding of_slice as_bytes
as_bytes-of_slice (b0 ∷ b1 ∷ b2 ∷ b3 ∷ b4 ∷ []) e h =
    (record { b0 = b0; b1 = b1; b2 = b2; b3 = b3; b4 = b4 }, refl, refl, omega arith)
as_bytes-of_slice _ e h = absurd (omega arith)
