-- ===== src/Controller/Plane.antt =====
-- `compute_6plane_ip`, `compute_rfc4193_ip` and `compute_rfc7217_opaque_ip`: the IPv6 addresses that
-- follow from the network and the member. An address is made of sixteen octets and read as a number.
pub mod Octets
pub mod Opaque
pub mod Free6
use Prim.Native.Nat.{bit_xor}
use zgalaxy_rs.Prelude.{
  ℕ, zero, suc, ◌+◌, ◌-◌, ◌*◌, ◌/◌, ◌%◌, ◌^◌, Bool, true, false, ◌&&◌, Option, none, some, List, [],
  ◌∷◌, ◌++◌, take, drop, replicate, ltb, leb, if◌then◌else◌, length,
}
use zgalaxy_rs.Prelude.Bytes.{Bytes, be_bytes, of_be_bytes}
use zgalaxy_rs.Prelude.Text.{Text, is_hex, lower}
use zgalaxy_rs.Controller.IpText.{IpText}

-- The value of a hexadecimal digit.
abbrev pub hex_value : ℕ → Option ℕ
hex_value c =
    if leb b'0' c && leb c b'9'
    then some (c - b'0')
    else if leb b'a' (lower c) && leb (lower c) b'f'
    then some (lower c - b'a' + 10)
    else none

-- `u64::from_str_radix(s, 16)` past the sign: an overflow or a bad digit is an error.
unfoldable pub hex_digits : Text → ℕ → Option ℕ
hex_digits [] acc = some acc
hex_digits (c ∷ t) acc = elim (hex_value c) [
  | none ↦ none
  | some d ↦
      let rest = hex_digits t (acc * 16 + d) in if ltb (acc * 16 + d) (2 ^ 64) then rest else none
]

-- The empty text is an error, and one `+` may stand in front of the digits.
unfoldable pub from_hex : Text → Option ℕ
unfolding hex_digits
from_hex [] = none
from_hex (c ∷ []) = hex_digits (c ∷ []) 0
from_hex (c ∷ d ∷ t) =
    if leb b'+' c && leb c b'+' then hex_digits (d ∷ t) 0 else hex_digits (c ∷ d ∷ t) 0

-- `((nwid ^ (nwid >> 32)) as u32).to_be_bytes()`
abbrev pub folded : ℕ → Bytes
folded nwid = be_bytes 4 (bit_xor nwid (nwid / 2 ^ 32) % 2 ^ 32)

-- `mem_bytes[3..8]`
abbrev pub member_bytes : ℕ → Bytes
member_bytes member = drop 3 (be_bytes 8 member)

unfoldable pub octets_6plane : ℕ → ℕ → Bytes
octets_6plane nwid member =
    0xfc ∷ (folded nwid ++ (member_bytes member ++ (0 ∷ 0 ∷ 0 ∷ 0 ∷ 0 ∷ 1 ∷ [])))

unfoldable pub octets_rfc4193 : ℕ → ℕ → Bytes
octets_rfc4193 nwid member = 0xfd ∷ (be_bytes 8 nwid ++ (0x99 ∷ 0x93 ∷ member_bytes member))

-- The two numbers that a network id and a member id stand for.
abbrev pub both : Option ℕ → Option ℕ → Option (ℕ × ℕ)
both none m = none
both (some n) none = none
both (some n) (some m) = some (n, m)

module _ (ips : IpText) where
  open ips use {v6_text}

  -- `Ipv6Addr::from(octets).to_string()`
  abbrev pub octets_text : Bytes → Text
  octets_text octets = v6_text (of_be_bytes octets)

  unfoldable pub compute_6plane_ip : Text → Text → Option Text
  unfolding from_hex octets_6plane
  compute_6plane_ip nwid member_id = elim (both (from_hex nwid) (from_hex member_id)) [
    | none ↦ none
    | some (n, m) ↦ some (octets_text (octets_6plane n m))
  ]

  unfoldable pub compute_rfc4193_ip : Text → Text → Option Text
  unfolding from_hex octets_rfc4193
  compute_rfc4193_ip nwid member_id = elim (both (from_hex nwid) (from_hex member_id)) [
    | none ↦ none
    | some (n, m) ↦ some (octets_text (octets_rfc4193 n m))
  ]
