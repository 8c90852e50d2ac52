-- ===== src/Daemon/Handshake.antt =====
-- src/main.rs with src/quic.rs: the announcement of a node that has the secret key of its address,
-- over both of its ends.
use zgalaxy_rs.Prelude.{
  ℕ, ◌≡◌, ◌∙◌, refl, true, all, none, some, [], ◌∷◌, length, arith, list_eq, nat_eq,
}
use zgalaxy_rs.Prelude.Bytes.{Bytes, IsBytes}
use zgalaxy_rs.Prelude.Text.{Text, is_hex, hex_encode}
use zgalaxy_rs.Prelude.Text.Laws.{IsLowerHex}
use zgalaxy_rs.Prelude.Dict
use zgalaxy_rs.Prelude.Dict.{get-insert}
use zgalaxy_rs.Prelude.Outcome.{ok}
use zgalaxy_rs.Net.{SocketAddr, socket_eq, socket_beq_iff}
use zgalaxy_rs.Identity.Address.Display.{to_string, to_string-IsLowerHex, length-to_string}
use zgalaxy_rs.Identity.Keys.{SignCrate, Identity, sign, verify, to_public_string}
use zgalaxy_rs.Identity.Keys.Print.{IsPublic, parse-to_public_string}
use zgalaxy_rs.Quic.{
  Transport, AnnounceProof, challenge_announce, challenge_material, verify_announce_proof,
}
use zgalaxy_rs.Quic.Proof.{
  IsAuthentic, IsAddressText, IsFree, Matches, verify_announce_proof_iff,
  verify_announce_proof-effect,
}
use zgalaxy_rs.Daemon.{Crates, own_proof}

-- Ed25519: a signature verifies under the key of the secret key that made it, and is 64 bytes that
-- read back.
pub record SignLaws (crypto : SignCrate) : Type 0 where
  pub verify_sign :
      (sk : crypto.SigningKey) (m : Bytes)
      → crypto.verify_with (crypto.verifying_key_of sk) m (crypto.sign_with sk m) ≡ true
  pub from_bytes :
      (s : crypto.Signature) → crypto.signature_from (crypto.signature_bytes s) ≡ some s
  pub size : (s : crypto.Signature) → length (crypto.signature_bytes s) ≡ 64
  pub bytes : (s : crypto.Signature) → IsBytes (crypto.signature_bytes s)

-- An identity with the secret key of its public key.
pub record IsOwn (crypto : SignCrate) (id : Identity crypto) : Type 0 where
  pub public : IsPublic crypto id
  pub key : crypto.SigningKey
  pub secret : id.signing_key ≡ some key
  pub pair : crypto.verifying_key_of key ≡ id.verifying_key

all-is_hex : (t : Text) → IsLowerHex t → all is_hex t ≡ true
all-is_hex [] h = refl
all-is_hex (c ∷ t) h = ground (arith, h.0.0, all-is_hex t h.1)

to_string-IsAddressText :
    (crypto : SignCrate) (id : Identity crypto)
    → IsPublic crypto id
    → IsAddressText (to_string id.address)
to_string-IsAddressText crypto id h =
    (length-to_string id.address, all-is_hex _ (to_string-IsLowerHex id.address h.valid))

module _ (crates : Crates) (laws : SignLaws crates.crypto) where
  open crates use {crypto, hex}

  -- The proof that the daemon makes of its own identity.
  proof_of : (id : Identity crypto) → IsOwn crypto id → ℕ → AnnounceProof
  unfolding challenge_material
  proof_of id own nonce = record {
    nonce = nonce;
    address = to_string id.address;
    signature = hex_encode (
        crypto.signature_bytes
          (crypto.sign_with own.key (challenge_material nonce (to_string id.address))));
    public_identity = to_public_string crypto id;
  }

  own_proof_lem :
      (id : Identity crypto) (own : IsOwn crypto id) (nonce : ℕ)
      → own_proof crates id nonce ≡ ok (proof_of id own nonce)
  unfolding own_proof sign proof_of
  own_proof_lem id own nonce = rw (own.secret) refl

  verify-sign_with :
      (id : Identity crypto) (sk : crypto.SigningKey) (m : Bytes)
      → crypto.verifying_key_of sk ≡ id.verifying_key
      → verify crypto id m (crypto.signature_bytes (crypto.sign_with sk m)) ≡ true
  unfolding verify
  verify-sign_with id sk m pair =
      rw (verify, laws.from_bytes (crypto.sign_with sk m), ← pair) (laws.verify_sign sk m)

  proof_of-IsAuthentic :
      (id : Identity crypto) (own : IsOwn crypto id) (nonce : ℕ)
      → IsAuthentic crypto hex (proof_of id own nonce)
  unfolding proof_of verify
  proof_of-IsAuthentic id own nonce =
      let m : Bytes = challenge_material nonce (to_string id.address) in
      let s : crypto.Signature = crypto.sign_with own.key m in
      record {
        identity = record id { signing_key = none };
        sig = crypto.signature_bytes s;
        parsed = parse-to_public_string crypto hex id own.public;
        same = refl;
        decoded = hex.decode_encode (crypto.signature_bytes s) (laws.bytes s);
        size = laws.size s;
        valid = verify-sign_with (record id { signing_key = none }) own.key m own.pair;
      }

  -- A node that has the secret key of its address answers the challenge for that address with a proof
  -- that the challenger accepts, whatever the nonce, and is then bound to the address, if it was not
  -- bound to another one before.
  pub announce-succeeds :
      (t : Transport) (remote : SocketAddr) (id : Identity crypto) (nonce : ℕ)
      → IsOwn crypto id
      → IsFree (Dict.get t.announced remote) (to_string id.address)
      → let asked = (challenge_announce t remote (to_string id.address) nonce).0 in
        (p : AnnounceProof) × (own_proof crates id nonce ≡ ok p)
        × ((verify_announce_proof crypto hex asked remote p).1 ≡ true)
        × (Dict.get (verify_announce_proof crypto hex asked remote p).0.announced remote
            ≡ some (to_string id.address))
  unfolding challenge_announce proof_of
  announce-succeeds t remote id nonce own free =
      let asked : Transport = (challenge_announce t remote (to_string id.address) nonce).0 in
      let p : AnnounceProof = proof_of id own nonce in
      let here : Matches asked remote p =
        get-insert t.pending_challenges remote (nonce, to_string id.address) remote
        ∙ ground (arith, socket_beq_iff remote remote) in
      let accepted = (verify_announce_proof_iff crypto hex asked remote p).1 (
        here,
        proof_of-IsAuthentic id own nonce,
        to_string-IsAddressText crypto id own.public,
        free,
      ) in
      (
        p,
        own_proof_lem id own nonce,
        accepted,
        (verify_announce_proof-effect crypto hex asked remote remote p).0
            ∙ ground (arith, accepted, socket_beq_iff remote remote),
      )
