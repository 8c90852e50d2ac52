-- ===== src/Identity/Keys/Print.antt =====
-- The public text of an identity parses back to it.
use zgalaxy_rs.Prelude.{
  ℕ, ◌≡◌, ◌∙◌, ap, refl, false, none, some, [], ◌∷◌, ◌++◌, length, All, All-append, arith, nat_beq,
}
use zgalaxy_rs.Prelude.Bytes.{Bytes, IsBytes}
use zgalaxy_rs.Prelude.Text.{Text, codes, trim, hex_encode}
use zgalaxy_rs.Prelude.Text.Laws.{
  IsLowerHex, NoSpace, IsLowerHex-NoSpace, trim-NoSpace, hex_encode-IsLowerHex,
}
use zgalaxy_rs.Prelude.Outcome.{ok}
use zgalaxy_rs.Identity.Address.{Address, IsAddress, null, address_beq_iff}
use zgalaxy_rs.Identity.Address.Display.{HexCrate, from_str, to_string, from_str-to_string}
use zgalaxy_rs.Identity.Keys.{
  SignCrate, Identity, split, parse, assemble, split_key, verifying_of, signing_of, address_for,
  from_public_key, to_public_string, public_hex,
}

abbrev NoChar : ℕ → Text → Type 0
NoChar c = All (λ x. nat_beq x c ≡ false)

split-NoChar : (c : ℕ) (t : Text) → NoChar c t → split c t ≡ t ∷ []
unfolding split
split-NoChar c [] h = refl
split-NoChar c (x ∷ t) h = ground (arith, h.0, split-NoChar c t h.1)

split-append : (c : ℕ) (t rest : Text) → NoChar c t → split c (t ++ c ∷ rest) ≡ t ∷ split c rest
unfolding split
split-append c [] rest h = ground arith
split-append c (x ∷ t) rest h = ground (arith, h.0, split-append c t rest h.1)

IsLowerHex-NoChar : (t : Text) → IsLowerHex t → NoChar b':' t
IsLowerHex-NoChar [] h = tt
IsLowerHex-NoChar (x ∷ t) h = (ground arith, IsLowerHex-NoChar t h.1)

-- Two hexadecimal parts around the type of the identity.
parts_lem :
    (a k : Text)
    → IsLowerHex a
    → IsLowerHex k
    → split b':' (trim (a ++ (codes ":0:" ++ k))) ≡ a ∷ codes "0" ∷ k ∷ []
parts_lem a k ha hk =
    let spaces : NoSpace (a ++ (codes ":0:" ++ k)) =
      All-append _ a (codes ":0:" ++ k) (IsLowerHex-NoSpace a ha)
        (refl, (refl, (refl, IsLowerHex-NoSpace k hk))) in
    ap (split b':') (trim-NoSpace (a ++ (codes ":0:" ++ k)) spaces)
    ∙ split-append b':' a (b'0' ∷ b':' ∷ k) (IsLowerHex-NoChar a ha)
    ∙ ap (λ ps. a ∷ ps)
        (split-append b':' (b'0' ∷ []) k (refl, tt)
          ∙ ap (λ ps. (b'0' ∷ []) ∷ ps) (split-NoChar b':' k (IsLowerHex-NoChar k hk)))

module _ (crypto : SignCrate) where
  open crypto use {vk_to_bytes, vk_from_bytes}

  -- The address and the public bytes of an identity are those of its verifying key, of 32 bytes.
  pub record IsPublic (id : Identity crypto) : Type 0 where
    pub bytes : IsBytes id.raw_public_key
    pub size : length id.raw_public_key ≡ 32
    pub read : vk_from_bytes id.raw_public_key ≡ some id.verifying_key
    pub derived : from_public_key crypto id.raw_public_key ≡ ok id.address
    pub valid : IsAddress id.address

  public_hex-raw :
      (id : Identity crypto) → IsPublic id → public_hex crypto id ≡ hex_encode id.raw_public_key
  unfolding public_hex
  public_hex-raw id h = go (id.raw_public_key) refl
    where
      go :
          (bs : Bytes)
          → id.raw_public_key ≡ bs
          → public_hex crypto id ≡ hex_encode id.raw_public_key
      go [] e = absurd (omega (arith, h.size, ap length e))
      go (b ∷ bs) e = rw (e) refl

  module _ (hex : HexCrate) where
    split_key-short :
        (id : Identity crypto)
        → IsPublic id
        → split_key crypto id.raw_public_key ≡ ok (id.raw_public_key, id.address)
    unfolding split_key
    split_key-short id h = ground (arith, h.size, h.derived)

    verifying_of-read :
        (id : Identity crypto)
        → IsPublic id
        → verifying_of crypto id.raw_public_key id.raw_public_key ≡ ok id.verifying_key
    unfolding verifying_of
    verifying_of-read id h = ground (arith, h.read)

    address_for-same : (a : Address) (bs : Bytes) → address_for crypto hex a bs a ≡ ok a
    unfolding address_for
    address_for-same a bs = ground (arith, address_beq_iff a null, address_beq_iff a a)

    -- Three parts leave no place for a secret key.
    assemble-public :
        (id : Identity crypto) (a z k : Text)
        → IsPublic id
        → assemble crypto hex (a ∷ z ∷ k ∷ []) id.address id.raw_public_key
          ≡ ok (record id { signing_key = none })
    unfolding assemble signing_of
    assemble-public id a z k h = ground (
      arith,
      split_key-short id h,
      verifying_of-read id h,
      address_for-same id.address id.raw_public_key,
    )

    parse-parts :
        (s a z k : Text) (address : Address) (bs : Bytes)
        → split b':' (trim s) ≡ a ∷ z ∷ k ∷ []
        → from_str hex a ≡ ok address
        → hex.decode k ≡ some bs
        → parse crypto hex s ≡ assemble crypto hex (a ∷ z ∷ k ∷ []) address bs
    unfolding parse
    parse-parts s a z k address bs parts first third = ground (arith, parts, first, third)

    -- The public text of an identity whose address and bytes are those of its key parses to the
    -- identity without its secret key.
    pub parse-to_public_string :
        (id : Identity crypto)
        → IsPublic id
        → parse crypto hex (to_public_string crypto id) ≡ ok (record id { signing_key = none })
    unfolding to_public_string
    parse-to_public_string id h =
        let a : Text = to_string id.address in
        let k : Text = hex_encode id.raw_public_key in
        let printed = from_str-to_string hex id.address h.valid in
        let parts = parts_lem a k printed.2 (hex_encode-IsLowerHex id.raw_public_key h.bytes) in
        ap (λ t. parse crypto hex (a ++ (codes ":0:" ++ t))) (public_hex-raw id h)
        ∙ parse-parts (a ++ (codes ":0:" ++ k)) a (codes "0") k id.address id.raw_public_key parts
            printed.0 (hex.decode_encode id.raw_public_key h.bytes)
        ∙ assemble-public id a (codes "0") k h
