-- ===== src/Identity/Address/Display.antt =====
-- `impl Display`, `impl FromStr` and the serde implementations of `Address`: ten hexadecimal
-- characters. `hex::decode` is a parameter.
use zgalaxy_rs.Identity.Address.{Address, IsAddress, as_bytes, of_slice}
use zgalaxy_rs.Prelude.{ℕ, ◌≡◌, ◌*◌, Option, none, some, length, arith, nat_beq, refl}
use zgalaxy_rs.Prelude.Bytes.{Bytes, IsBytes}
use zgalaxy_rs.Prelude.Text.{Text, trim, hex_encode}
use zgalaxy_rs.Prelude.Text.Laws.{
  trim-NoSpace, IsLowerHex, IsLowerHex-NoSpace, hex_encode-IsLowerHex,
}
use zgalaxy_rs.Prelude.Outcome.{Outcome, ok, err, panic, ◌>>=◌, ◌>>◌, ensure}

-- `hex::decode`, with its documented inverse and what it does to the length.
pub record HexCrate : Type 0 where
  pub decode : Text → Option Bytes
  pub decode_encode : (bs : Bytes) → IsBytes bs → decode (hex_encode bs) ≡ some bs
  pub decode_length : (t : Text) (bs : Bytes) → decode t ≡ some bs → length t ≡ 2 * length bs

pub data AddressError : Type 0 where
  bad_length : ℕ → AddressError
  bad_hex : AddressError
  bad_decoded_length : AddressError

-- `format!("{}", address)`.
unfoldable pub to_string : Address → Text
unfolding hex_encode as_bytes
to_string a = hex_encode (as_bytes a)

pub to_string-IsLowerHex : (a : Address) → IsAddress a → IsLowerHex (to_string a)
unfolding to_string
to_string-IsLowerHex a h = hex_encode-IsLowerHex (as_bytes a) (omega arith)

pub length-to_string : (a : Address) → length (to_string a) ≡ 10
unfolding to_string
length-to_string a = refl

module _ (hex : HexCrate) where
  open hex use {decode, decode_encode, decode_length}

  -- `arr.copy_from_slice(&bytes)`.
  unfoldable pub copy_address : Bytes → Outcome AddressError Address
  unfolding of_slice
  copy_address bs = elim (of_slice bs) [ none ↦ panic | some a ↦ ok a ]

  unfoldable pub decode_trimmed : Text → Outcome AddressError Bytes
  decode_trimmed t = elim (decode t) [ none ↦ err bad_hex | some bs ↦ ok bs ]

  -- `Address::from_str`.
  unfoldable pub from_str : Text → Outcome AddressError Address
  unfolding copy_address decode_trimmed trim
  from_str s = do
    let trimmed = trim s
    ensure (nat_beq (length trimmed) 10) (bad_length (length trimmed))
    bytes ← decode_trimmed trimmed
    ensure (nat_beq (length bytes) 5) bad_decoded_length
    copy_address bytes

  -- The printed form of an address is ten lower-case hexadecimal characters, and parses back to it.
  pub from_str-to_string :
      (a : Address)
      → IsAddress a
      → (from_str (to_string a) ≡ ok a) × (length (to_string a) ≡ 10) × IsLowerHex (to_string a)
  unfolding from_str to_string
  from_str-to_string a h =
      let printed : IsLowerHex (hex_encode (as_bytes a)) = to_string-IsLowerHex a h in
      (
        ground (
          arith,
          trim-NoSpace (hex_encode (as_bytes a))
              (IsLowerHex-NoSpace (hex_encode (as_bytes a)) printed),
          decode_encode (as_bytes a) (omega arith),
        ),
        refl,
        printed,
      )
