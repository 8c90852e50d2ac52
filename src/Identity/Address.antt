-- ===== src/Identity/Address.antt =====
-- src/identity.rs, `struct Address`: five bytes, read as a 40-bit number, as bytes and as ten
-- hexadecimal characters. Shifts are products and quotients by powers of two; the `|` of
-- `to_u64` joins ranges of bits that do not meet, so it is `+`.
pub mod Numbers
pub mod Display
use Prim.Native.Nat.{ℕ, ◌+◌, ◌*◌, ◌/◌, ◌%◌, ◌^◌, ◌<◌}
use zgalaxy_rs.Prelude.{
  ◌≡◌, ◌↔◌, Bool, true, false, ◌&&◌, List, [], ◌∷◌, Option, none, some, arith, HasEq, nat_beq,
  nat_beq_iff,
}
use zgalaxy_rs.Prelude.Bytes.{Bytes, IsByte}

pub record Address : Type 0 where
  pub b0 : ℕ
  pub b1 : ℕ
  pub b2 : ℕ
  pub b3 : ℕ
  pub b4 : ℕ

-- Every field is a `u8`.
pub record IsAddress (a : Address) : Type 0 where
  pub byte0 : IsByte a.b0
  pub byte1 : IsByte a.b1
  pub byte2 : IsByte a.b2
  pub byte3 : IsByte a.b3
  pub byte4 : IsByte a.b4

abbrev pub null : Address
null = record { b0 = 0; b1 = 0; b2 = 0; b3 = 0; b4 = 0 }

abbrev pub address_beq : Address → Address → Bool
address_beq a b =
    nat_beq a.b0 b.b0
    && (nat_beq a.b1 b.b1 && (nat_beq a.b2 b.b2 && (nat_beq a.b3 b.b3 && nat_beq a.b4 b.b4)))

pub address_beq_iff : (a b : Address) → (address_beq a b ≡ true) ↔ (a ≡ b)
address_beq_iff a b = ground arith

instance abbrev pub address_eq : HasEq Address
address_eq = record { test = address_beq; test_iff = address_beq_iff }

unfoldable pub is_reserved : Address → Bool
is_reserved a = nat_beq a.b0 0xff

unfoldable pub to_u64 : Address → ℕ
to_u64 a = a.b0 * 2 ^ 32 + a.b1 * 2 ^ 24 + a.b2 * 2 ^ 16 + a.b3 * 2 ^ 8 + a.b4

unfoldable pub from_u64 : ℕ → Address
from_u64 val = record {
  b0 = val / 2 ^ 32 % 256;
  b1 = val / 2 ^ 24 % 256;
  b2 = val / 2 ^ 16 % 256;
  b3 = val / 2 ^ 8 % 256;
  b4 = val % 256;
}

unfoldable pub as_bytes : Address → Bytes
as_bytes a = a.b0 ∷ a.b1 ∷ a.b2 ∷ a.b3 ∷ a.b4 ∷ []

-- `arr.copy_from_slice(&bytes)` into `[u8; 5]`: any other length panics.
unfoldable pub of_slice : Bytes → Option Address
of_slice (b0 ∷ b1 ∷ b2 ∷ b3 ∷ b4 ∷ []) =
    some (record { b0 = b0; b1 = b1; b2 = b2; b3 = b3; b4 = b4 })
of_slice _ = none
