-- ===== src/Identity/Keys.antt =====
-- src/identity.rs, `struct Identity`: the keys of a node, and their text. Ed25519 and SHA-512 are
-- parameters.
pub mod Parse
pub mod Print
pub mod Total
use zgalaxy_rs.Prelude.{
  ℕ, ◌+◌, ◌≡◌, Bool, true, false, ◌&&◌, not, Option, none, some, List, [], ◌∷◌, ◌++◌, length, take,
  drop, get_elem?, nat_beq, ltb, leb, list_beq, nat_eq, if◌then◌else◌,
}
use zgalaxy_rs.Prelude.Bytes.{Bytes}
use zgalaxy_rs.Prelude.Text.{Text, codes, trim, hex_encode}
use zgalaxy_rs.Prelude.Outcome.{Outcome, ok, err, panic, ◌>>=◌, ◌>>◌, ensure}
use zgalaxy_rs.Prelude.Slice.{slice}
use zgalaxy_rs.Identity.Address.{Address, null, of_slice, is_reserved, address_beq}
use zgalaxy_rs.Identity.Address.Display.{HexCrate, AddressError, from_str, to_string}

-- `ed25519_dalek` and `sha2::Sha512`.
pub record SignCrate : Type 1 where
  pub VerifyingKey : Type 0
  pub SigningKey : Type 0
  pub Signature : Type 0
  pub vk_from_bytes : Bytes → Option VerifyingKey
  pub vk_to_bytes : VerifyingKey → Bytes
  pub sk_from_bytes : Bytes → SigningKey
  pub sk_to_bytes : SigningKey → Bytes
  pub verifying_key_of : SigningKey → VerifyingKey
  pub sign_with : SigningKey → Bytes → Signature
  pub signature_bytes : Signature → Bytes
  pub signature_from : Bytes → Option Signature
  pub verify_with : VerifyingKey → Bytes → Signature → Bool
  pub sha512 : Bytes → Bytes
  pub sha512_length : (bs : Bytes) → length (sha512 bs) ≡ 64

pub data IdentityError : Type 0 where
  malformed bad_hex bad_verifying_key key_mismatch address_mismatch no_secret_key : IdentityError
  bad_key_length short_private_key : ℕ → IdentityError

-- `s.split(c)`: one part more than there are separators.
unfoldable pub split : ℕ → Text → List Text
split c [] = [] ∷ []
split c (x ∷ t) =
    let rest = split c t in
    if nat_beq x c
    then [] ∷ rest
    else elim rest [ [] ↦ (x ∷ []) ∷ [] | part ∷ parts ↦ (x ∷ part) ∷ parts ]

-- `digest[0] < 17`
abbrev pub first_low : Bytes → Bool
first_low [] = false
first_low (d ∷ ds) = ltb d 17

module _ (crypto : SignCrate) where
  open crypto use {
    VerifyingKey, SigningKey, vk_from_bytes, vk_to_bytes, sk_from_bytes, sk_to_bytes,
    verifying_key_of, sign_with, signature_bytes, signature_from, verify_with, sha512,
  }

  pub record Identity : Type 0 where
    pub address : Address
    pub verifying_key : VerifyingKey
    pub signing_key : Option SigningKey
    pub raw_public_key : Bytes

  -- `copy_from_slice(&digest[59..64])` into an address.
  unfoldable pub from_public_key : Bytes → Outcome IdentityError Address
  unfolding of_slice
  from_public_key key = elim (of_slice (take 5 (drop 59 (sha512 key)))) [
    | none ↦ panic
    | some a ↦ ok a
  ]

  -- `arr.copy_from_slice(bs)` into 32 bytes: other lengths panic.
  abbrev pub copy_32 : Bytes → Outcome IdentityError Bytes
  copy_32 bs = if nat_beq (length bs) 32 then ok bs else panic

  -- One pass of the loop of `generate`, for a fresh signing key: an identity, or another try.
  unfoldable pub try_key : SigningKey → Outcome IdentityError (Option Identity)
  unfolding from_public_key is_reserved
  try_key signing_key = do
    let verifying_key = verifying_key_of signing_key
    let pub_bytes = vk_to_bytes verifying_key
    address ← from_public_key pub_bytes
    ok (
        if first_low (sha512 pub_bytes) && not (is_reserved address)
        then some (record {
          address = address;
          verifying_key = verifying_key;
          signing_key = some signing_key;
          raw_public_key = pub_bytes;
        })
        else none)

  -- The loop, on the keys that the random generator gives.
  unfoldable pub generate : List SigningKey → Outcome IdentityError (Option Identity)
  unfolding try_key
  generate [] = ok none
  generate (key ∷ keys) =
      let rest = generate keys in
      try_key key >>= (λ found. elim found [ none ↦ rest | some id ↦ ok (some id) ])

  unfoldable pub sign : Identity → Bytes → Outcome IdentityError Bytes
  sign id input = elim (id.signing_key) [
    | none ↦ err no_secret_key
    | some sk ↦ ok (signature_bytes (sign_with sk input))
  ]

  unfoldable pub verify : Identity → Bytes → Bytes → Bool
  verify id input signature = elim (signature_from signature) [
    | none ↦ false
    | some s ↦ verify_with id.verifying_key input s
  ]

  unfoldable pub public_hex : Identity → Text
  unfolding hex_encode
  public_hex id = elim (id.raw_public_key) [
    | [] ↦ hex_encode (vk_to_bytes id.verifying_key)
    | b ∷ bs ↦ hex_encode (b ∷ bs)
  ]

  unfoldable pub to_public_string : Identity → Text
  unfolding public_hex to_string
  to_public_string id = to_string id.address ++ (codes ":0:" ++ public_hex id)

  unfoldable pub to_secret_string : Identity → Outcome IdentityError Text
  unfolding public_hex to_string
  to_secret_string id = elim (id.signing_key) [
    | none ↦ err no_secret_key
    | some sk ↦ ok (
        to_string id.address
        ++ (codes ":0:" ++ (public_hex id ++ (b':' ∷ hex_encode (sk_to_bytes sk)))))
  ]

  unfoldable pub secret_key_bytes : Identity → Bytes
  secret_key_bytes id = elim (id.signing_key) [
    | some sk ↦ sk_to_bytes sk
    | none ↦ vk_to_bytes id.verifying_key
  ]

  -- `Address::from_str(parts[0]).unwrap_or(Address::NULL)`
  abbrev pub or_null : Outcome AddressError Address → Outcome IdentityError Address
  or_null (ok a) = ok a
  or_null (err e) = ok null
  or_null panic = panic

  -- `parts[i]`
  abbrev pub part_at : List Text → ℕ → Outcome IdentityError Text
  part_at parts i = elim (get_elem? parts i) [ none ↦ panic | some t ↦ ok t ]

  -- The Ed25519 key in the public bytes, and the address that they stand for.
  unfoldable pub split_key : Bytes → Outcome IdentityError (Bytes × Address)
  unfolding from_public_key slice
  split_key pub_bytes =
      let address = from_public_key pub_bytes in
      if nat_beq (length pub_bytes) 64
      then slice 32 (drop 32 pub_bytes)
        >>= (λ half. copy_32 half >>= (λ arr. address >>= (λ a. ok (arr, a))))
      else if nat_beq (length pub_bytes) 32
      then copy_32 pub_bytes >>= (λ arr. address >>= (λ a. ok (arr, a)))
      else err (bad_key_length (length pub_bytes))

  abbrev pub key_or_err : Option VerifyingKey → Outcome IdentityError VerifyingKey
  key_or_err none = err bad_verifying_key
  key_or_err (some vk) = ok vk

  -- A key of 64 bytes may have its halves the other way round.
  unfoldable pub verifying_of : Bytes → Bytes → Outcome IdentityError VerifyingKey
  unfolding slice
  verifying_of pub_bytes verifying_arr = elim (vk_from_bytes verifying_arr) [
    | some vk ↦ ok vk
    | none ↦
        if nat_beq (length pub_bytes) 64
        then slice 32 pub_bytes >>= (λ half. key_or_err (vk_from_bytes half))
        else err bad_verifying_key
  ]

  abbrev pub matches : SigningKey → Bytes → Bool
  matches sk verifying_arr = list_beq (vk_to_bytes (verifying_key_of sk)) verifying_arr

  -- The key in the second half of the private bytes.
  unfoldable pub second_half : Bytes → Bytes → Outcome IdentityError SigningKey
  unfolding slice
  second_half priv_bytes verifying_arr =
      if leb 64 (length priv_bytes)
      then slice 32 (drop 32 priv_bytes) >>= (λ second.
        if matches (sk_from_bytes second) verifying_arr
        then ok (sk_from_bytes second)
        else err key_mismatch)
      else err key_mismatch

  -- The signing key that belongs to the public key, from either half of the private bytes.
  unfoldable pub secret_of : Bytes → Bytes → Outcome IdentityError SigningKey
  unfolding slice second_half
  secret_of priv_bytes verifying_arr =
      if ltb (length priv_bytes) 32
      then err (short_private_key (length priv_bytes))
      else slice 32 priv_bytes >>= (λ first.
        if matches (sk_from_bytes first) verifying_arr
        then ok (sk_from_bytes first)
        else second_half priv_bytes verifying_arr)

  module _ (hex : HexCrate) where
    abbrev pub decode_part : Text → Outcome IdentityError Bytes
    decode_part t = elim (hex.decode t) [ none ↦ err bad_hex | some bs ↦ ok bs ]

    -- `if parts.len() >= 4 && !parts[3].is_empty()`
    unfoldable pub signing_of : List Text → Bytes → Outcome IdentityError (Option SigningKey)
    unfolding secret_of
    signing_of parts verifying_arr = elim (get_elem? parts 3) [
      | none ↦ ok none
      | some [] ↦ ok none
      | some (c ∷ t) ↦
          decode_part (c ∷ t)
          >>= (λ priv_bytes. secret_of priv_bytes verifying_arr >>= (λ sk. ok (some sk)))
    ]

    -- The stated address, where there is one, has to be that of a key of 32 bytes.
    unfoldable pub address_for : Address → Bytes → Address → Outcome IdentityError Address
    address_for parsed pub_bytes expected =
        if address_beq parsed null
        then ok expected
        else if nat_beq (length pub_bytes) 32 && not (address_beq parsed expected)
        then err address_mismatch
        else ok parsed

    -- What `parse` does with the parts, the stated address and the public bytes.
    unfoldable pub assemble : List Text → Address → Bytes → Outcome IdentityError Identity
    unfolding split_key verifying_of signing_of address_for
    assemble parts parsed pub_bytes = do
      (verifying_arr, expected) ← split_key pub_bytes
      verifying_key ← verifying_of pub_bytes verifying_arr
      signing_key ← signing_of parts verifying_arr
      address ← address_for parsed pub_bytes expected
      ok (record {
        address = address;
        verifying_key = verifying_key;
        signing_key = signing_key;
        raw_public_key = pub_bytes;
      })

    unfoldable pub parse : Text → Outcome IdentityError Identity
    unfolding split assemble trim from_str
    parse s = do
      let parts = split b':' (trim s)
      ensure (leb 3 (length parts)) malformed
      first ← part_at parts 0
      parsed ← or_null (from_str hex first)
      third ← part_at parts 2
      pub_bytes ← decode_part third
      assemble parts parsed pub_bytes
