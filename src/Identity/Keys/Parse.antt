-- ===== src/Identity/Keys/Parse.antt =====
-- What the parsing of an identity string guarantees.
use zgalaxy_rs.Prelude.{
  ◌≡◌, refl, Option, none, some, List, [], ◌∷◌, take, drop, get_elem?, length, arith, list_beq_iff,
  nat_eq, list_eq, leb, Option-cases, Bool-cases, inl, inr, ◌∙◌, ap, subst,
}
use zgalaxy_rs.Prelude.Bytes.{Bytes}
use zgalaxy_rs.Prelude.Text.{Text, trim}
use zgalaxy_rs.Prelude.Outcome.{Outcome, ok, ◌>>=◌, Outcome-cases}
use zgalaxy_rs.Prelude.Slice.{slice}
use zgalaxy_rs.Identity.Address.{Address, of_slice, address_beq_iff}
use zgalaxy_rs.Identity.Address.Display.{HexCrate, from_str}
use zgalaxy_rs.Identity.Keys.{
  SignCrate, Identity, IdentityError, from_public_key, split, split_key, verifying_of, signing_of,
  secret_of, second_half, address_for, parse, assemble, or_null, decode_part,
}

module _ (crypto : SignCrate) (hex : HexCrate) where
  open crypto use {SigningKey, vk_to_bytes, verifying_key_of}

  -- A signing key, where there is one, belongs to the public bytes.
  abbrev pub BelongsTo : Option SigningKey → Bytes → Type 0
  BelongsTo none key = Unit {0}
  BelongsTo (some sk) key = vk_to_bytes (verifying_key_of sk) ≡ key

  second_half-BelongsTo :
      (priv_bytes key : Bytes) (sk : SigningKey)
      → second_half crypto priv_bytes key ≡ ok sk
      → vk_to_bytes (verifying_key_of sk) ≡ key
  unfolding second_half slice
  second_half-BelongsTo priv_bytes key sk h =
      ground (arith, list_beq_iff (vk_to_bytes (verifying_key_of sk)) key)

  secret_of-BelongsTo :
      (priv_bytes key : Bytes) (sk : SigningKey)
      → secret_of crypto priv_bytes key ≡ ok sk
      → vk_to_bytes (verifying_key_of sk) ≡ key
  unfolding secret_of slice
  secret_of-BelongsTo priv_bytes key sk h = ground (
    arith,
    list_beq_iff (vk_to_bytes (verifying_key_of sk)) key,
    second_half-BelongsTo priv_bytes key sk,
  )

  split_key-short :
      (key arr : Bytes) (a : Address)
      → split_key crypto key ≡ ok (arr, a)
      → length key ≡ 32
      → (arr ≡ key) × (from_public_key crypto key ≡ ok a)
  unfolding split_key from_public_key slice
  split_key-short key arr a h size =
      elim (Option-cases (of_slice (take 5 (drop 59 (crypto.sha512 key))))) [
        | inl e ↦ ground arith
        | inr (x, e) ↦ ground arith
      ]

  address_for-short :
      (parsed expected address : Address) (key : Bytes)
      → address_for crypto hex parsed key expected ≡ ok address
      → length key ≡ 32
      → address ≡ expected
  unfolding address_for
  address_for-short parsed expected address key h size =
      ground (arith, address_beq_iff parsed expected)

  signing_part : Text → Bytes → Outcome IdentityError (Option SigningKey)
  signing_part t key =
      decode_part crypto hex t
      >>= (λ priv_bytes. secret_of crypto priv_bytes key >>= (λ sk. ok (some sk)))

  signing_part-BelongsTo :
      (t : Text) (key : Bytes) (o : Option SigningKey) → signing_part t key ≡ ok o → BelongsTo o key
  unfolding signing_part
  signing_part-BelongsTo t key none h = tt
  signing_part-BelongsTo t key (some sk) h = elim (Option-cases (hex.decode t)) [
    | inl e ↦ absurd (ground arith)
    | inr (bs, e) ↦ elim (Outcome-cases (secret_of crypto bs key)) [
      | inl (found, f) ↦ ground (arith, secret_of-BelongsTo bs key found f)
      | inr (inl (x, f)) ↦ absurd (ground arith)
      | inr (inr f) ↦ absurd (ground arith)
    ]
  ]

  signing_of-BelongsTo :
      (parts : List Text) (key : Bytes) (o : Option SigningKey)
      → signing_of crypto hex parts key ≡ ok o
      → BelongsTo o key
  unfolding signing_of signing_part
  signing_of-BelongsTo parts key none h = tt
  signing_of-BelongsTo parts key (some sk) h = go (get_elem? parts 3) refl
    where
      go : (part : Option Text) → get_elem? parts 3 ≡ part → BelongsTo (some sk) key
      go none e = absurd (ground arith)
      go (some []) e = absurd (ground arith)
      go (some (c ∷ t)) e = signing_part-BelongsTo (c ∷ t) key (some sk) (ground arith)

  assemble-BelongsTo :
      (parts : List Text) (parsed : Address) (key : Bytes) (id : Identity crypto)
      → assemble crypto hex parts parsed key ≡ ok id
      → length id.raw_public_key ≡ 32
      → (from_public_key crypto id.raw_public_key ≡ ok id.address)
        × BelongsTo id.signing_key id.raw_public_key
  unfolding assemble
  assemble-BelongsTo parts parsed key id h size = elim (Outcome-cases (split_key crypto key)) [
    | inr (inl (x, f)) ↦ absurd (ground arith)
    | inr (inr f) ↦ absurd (ground arith)
    | inl ((arr, expected), e1) ↦ elim (Outcome-cases (verifying_of crypto key arr)) [
      | inr (inl (x, f)) ↦ absurd (ground arith)
      | inr (inr f) ↦ absurd (ground arith)
      | inl (vk, e2) ↦ elim (Outcome-cases (signing_of crypto hex parts arr)) [
        | inr (inl (x, f)) ↦ absurd (ground arith)
        | inr (inr f) ↦ absurd (ground arith)
        | inl (sk, e3) ↦ elim (Outcome-cases (address_for crypto hex parsed key expected)) [
          | inr (inl (x, f)) ↦ absurd (ground arith)
          | inr (inr f) ↦ absurd (ground arith)
          | inl (address, e4) ↦
              let raw : key ≡ id.raw_public_key = ground arith in
              let is_sk : sk ≡ id.signing_key = ground arith in
              let short : length key ≡ 32 = ap length raw ∙ size in
              let (same, derived) = split_key-short key arr expected e1 short in
              let owner : BelongsTo sk key =
                subst (BelongsTo sk) same (signing_of-BelongsTo parts arr sk e3) in
              (
                ground (arith, address_for-short parsed expected address key e4 short),
                subst (λ o. BelongsTo o id.raw_public_key) is_sk (subst (BelongsTo sk) raw owner),
              )
        ]
      ]
    ]
  ]

  reaches :
      (s : Text) (id : Identity crypto)
      → parse crypto hex s ≡ ok id
      → (parts : List Text) × (parsed : Address) × (key : Bytes) × (assemble crypto hex parts parsed
            key
          ≡ ok id)
  unfolding parse
  reaches s id h =
      let parts = split b':' (trim s) in
      elim (Bool-cases (leb 3 (length parts))) [
        | inr f ↦ absurd (ground arith)
        | inl e ↦ elim (Option-cases (get_elem? parts 0)) [
          | inl f ↦ absurd (ground arith)
          | inr (first, e0) ↦ elim (Outcome-cases (or_null crypto (from_str hex first))) [
            | inr (inl (x, f)) ↦ absurd (ground arith)
            | inr (inr f) ↦ absurd (ground arith)
            | inl (parsed, e1) ↦ elim (Option-cases (get_elem? parts 2)) [
              | inl f ↦ absurd (ground arith)
              | inr (third, e2) ↦ elim (Option-cases (hex.decode third)) [
                | inl f ↦ absurd (ground arith)
                | inr (key, e3) ↦ (parts, parsed, key, ground arith)
              ]
            ]
          ]
        ]
      ]

  -- An identity that is parsed with a public key of 32 bytes has the address of that key, and its
  -- signing key, if it has one, is that of the public key.
  pub parse-BelongsTo :
      (s : Text) (id : Identity crypto)
      → parse crypto hex s ≡ ok id
      → length id.raw_public_key ≡ 32
      → (from_public_key crypto id.raw_public_key ≡ ok id.address)
        × BelongsTo id.signing_key id.raw_public_key
  unfolding parse
  parse-BelongsTo s id h size =
      let (parts, parsed, key, e) = reaches s id h in assemble-BelongsTo parts parsed key id e size
