-- ===== src/Tests/Keys.antt =====
-- Identity strings and membership tokens at concrete inputs.
use zgalaxy_rs.Prelude.{◌≡◌, refl, some, none, [], ◌∷◌, replicate, list_beq, nat_eq, ◌%◌}
use zgalaxy_rs.Prelude.Bytes.{Bytes}
use zgalaxy_rs.Prelude.Text.{Text, codes, trim, trim_start}
use zgalaxy_rs.Prelude.Outcome.{ok}
use zgalaxy_rs.Prelude.Dict
use zgalaxy_rs.Identity.Address.{of_slice}
use zgalaxy_rs.Identity.Address.Display.{from_str}
use zgalaxy_rs.Identity.Keys.{
  SignCrate, Identity, from_public_key, split, split_key, verifying_of, signing_of, address_for,
  assemble, parse,
}
use zgalaxy_rs.Identity.Keys.Parse.{BelongsTo, parse-BelongsTo}
use zgalaxy_rs.Controller.Types.{Controller}
use zgalaxy_rs.Controller.Token.{
  TokenCrates, IsAccepted, verify_membership_token, decoded_parts, checked_payload,
  verify_membership_token-IsAccepted,
}
use zgalaxy_rs.Tests.Crates.{hex_crate, json, Value, object, text, number, sum}

abbrev crypto : SignCrate
crypto = record {
  VerifyingKey = Bytes;
  SigningKey = Bytes;
  Signature = Bytes;
  vk_from_bytes = some;
  vk_to_bytes = λ key. key;
  sk_from_bytes = λ key. key;
  sk_to_bytes = λ key. key;
  verifying_key_of = λ key. key;
  sign_with = λ key message. replicate 64 (sum key % 256);
  signature_bytes = λ s. s;
  signature_from = some;
  verify_with = λ key message s. list_beq s (replicate 64 (sum key % 256));
  sha512 = λ bs. replicate 64 7;
  sha512_length = λ bs. refl;
}

-- The text of a token's parts is its bytes, and any body reads as the same payload.
abbrev pub claims : Value
claims = (
  object,
  (codes "n", text (codes "net"))
      ∷ (codes "m", text (codes "member"))
      ∷ (codes "t", number 100)
      ∷ (codes "e", number 3700)
      ∷ (codes "c", text (codes "8056c2e21c"))
      ∷ [],
)

abbrev key : Bytes
key = replicate 32 0x2a

abbrev stated : Text
stated = codes "0707070707:0:2a2a2a2a2a2a2a2a2a2a2a2a2a2a2a2a2a2a2a2a2a2a2a2a2a2a2a2a2a2a2a2a"

abbrev identity : Identity crypto
identity = record {
  address = record { b0 = 7; b1 = 7; b2 = 7; b3 = 7; b4 = 7 };
  verifying_key = key;
  signing_key = none;
  raw_public_key = key;
}

abbrev pub token_crates : TokenCrates json
token_crates = record {
  b64url = λ bs. bs;
  b64url_decode = some;
  of_entries = λ es. claims;
  to_vec = λ v. some (1 ∷ 2 ∷ []);
  from_slice = λ bs. some claims;
  crypto = crypto;
  identity = record identity { signing_key = some key };
}

parses : parse crypto hex_crate stated ≡ ok identity
unfolding parse split split_key verifying_of signing_of address_for assemble from_str trim
    trim_start from_public_key of_slice
parses = refl

parse-BelongsTo_example :
    (from_public_key crypto key ≡ ok identity.address) × BelongsTo crypto hex_crate none key
parse-BelongsTo_example = parse-BelongsTo crypto hex_crate stated identity parses refl

abbrev ctrl : Controller Value
ctrl = record { controller_address = codes "8056c2e21c"; networks = []; members = [] }

abbrev token : Text
token = 1 ∷ 2 ∷ b'.' ∷ replicate 64 64

accepts :
    verify_membership_token json token_crates ctrl token (codes "net") (codes "member") 200
    ≡ some claims
unfolding verify_membership_token decoded_parts checked_payload split Dict.get
accepts = refl

verify_membership_token-IsAccepted_example :
    IsAccepted json token_crates ctrl token (codes "net") (codes "member") 200 claims
verify_membership_token-IsAccepted_example =
    verify_membership_token-IsAccepted json token_crates ctrl token (codes "net") (codes "member")
      200 claims accepts
