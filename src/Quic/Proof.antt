-- ===== src/Quic/Proof.antt =====
-- What the verification of an announcement's proof guarantees.
use zgalaxy_rs.Prelude.{
  ◌≡◌, true, ◌&&◌, Option, none, some, length, all, arith, list_beq_iff, nat_eq, Option-cases,
  Bool-cases, inl, inr, ◌↔◌, ◌==◌, list_eq, subst, sym, if◌then◌else◌,
}
use zgalaxy_rs.Prelude.Bytes.{Bytes}
use zgalaxy_rs.Prelude.Text.{Text, is_hex}
use zgalaxy_rs.Prelude.Dict
use zgalaxy_rs.Prelude.Dict.{get-insert, get-remove}
use zgalaxy_rs.Prelude.Outcome.{ok, Outcome-cases}
use zgalaxy_rs.Net.{SocketAddr, socket_beq_iff, socket_eq}
use zgalaxy_rs.Identity.Address.Display.{HexCrate, to_string}
use zgalaxy_rs.Identity.Keys.{SignCrate, Identity, parse, verify}
use zgalaxy_rs.Quic.{
  Transport, AnnounceProof, challenge_material, signature_holds, identity_holds, proof_holds,
  verify_announce_proof, remember_announce, drop_challenge,
}

-- The challenge of the proof is the one that is outstanding for the remote.
abbrev pub Matches : Transport → SocketAddr → AnnounceProof → Type 0
Matches t remote p = Dict.get t.pending_challenges remote ≡ some (p.nonce, p.address)

-- Ten hexadecimal characters.
abbrev pub IsAddressText : Text → Type 0
IsAddressText a = (length a ≡ 10) × (all is_hex a ≡ true)

-- The binding of a remote is absent, or is the address itself.
abbrev pub IsFree : Option Text → Text → Type 0
IsFree none a = Unit {0}
IsFree (some b) a = b ≡ a

pub remember_announce_iff :
    (t : Transport) (remote : SocketAddr) (a : Text)
    → (((remember_announce t remote a).1 ≡ true)
        ↔ (IsAddressText a × IsFree (Dict.get t.announced remote) a))
unfolding remember_announce
remember_announce_iff t remote a = elim (Option-cases (Dict.get t.announced remote)) [
  | inl e ↦ (λ h. (ground arith, subst (λ o. IsFree o a) (sym e) tt), λ h. ground arith)
  | inr (b, e) ↦ (λ h. ground (arith, list_beq_iff b a), λ h. ground (arith, list_beq_iff b a))
]

pub announced-remember_announce :
    (t : Transport) (remote r : SocketAddr) (a : Text)
    → Dict.get (remember_announce t remote a).0.announced r
      ≡ (if (remember_announce t remote a).1 && remote == r then some a else Dict.get t.announced r)
unfolding remember_announce
announced-remember_announce t remote r a = elim (Option-cases (Dict.get t.announced remote)) [
  | inl e ↦ ground (arith, get-insert t.announced remote a r)
  | inr (b, e) ↦ ground (arith, list_beq_iff b a, socket_beq_iff remote r)
]

pub tables-remember_announce :
    (t : Transport) (remote : SocketAddr) (a : Text)
    → ((remember_announce t remote a).0.pending_challenges ≡ t.pending_challenges)
      × ((remember_announce t remote a).0.peers ≡ t.peers)
      × ((remember_announce t remote a).0.accepted ≡ t.accepted)
unfolding remember_announce
tables-remember_announce t remote a = ground arith

module _ (crypto : SignCrate) (hex : HexCrate) where
  -- The proof's identity string parses to an identity of the proof's address, whose key verifies the
  -- signature of 64 bytes over the challenge material.
  pub record IsAuthentic (p : AnnounceProof) : Type 0 where
    pub identity : Identity crypto
    pub sig : Bytes
    pub parsed : parse crypto hex p.public_identity ≡ ok identity
    pub same : to_string identity.address ≡ p.address
    pub decoded : hex.decode p.signature ≡ some sig
    pub size : length sig ≡ 64
    pub valid : verify crypto identity (challenge_material p.nonce p.address) sig ≡ true

  -- A signature that decodes to 64 bytes and verifies.
  abbrev Signs : Identity crypto → AnnounceProof → Bytes → Type 0
  Signs identity p sig =
      (hex.decode p.signature ≡ some sig)
      × (length sig ≡ 64)
      × (verify crypto identity (challenge_material p.nonce p.address) sig ≡ true)

  signature_holds-Signs :
      (identity : Identity crypto) (p : AnnounceProof)
      → signature_holds crypto hex identity p ≡ true
      → (sig : Bytes) × Signs identity p sig
  unfolding signature_holds
  signature_holds-Signs identity p h = elim (Option-cases (hex.decode p.signature)) [
    | inl e ↦ absurd (ground arith)
    | inr (sig, e) ↦ (sig, ground arith)
  ]

  identity_tests :
      (identity : Identity crypto) (p : AnnounceProof)
      → parse crypto hex p.public_identity ≡ ok identity
      → identity_holds crypto hex p ≡ true
      → (to_string identity.address ≡ p.address) × (signature_holds crypto hex identity p ≡ true)
  unfolding identity_holds
  identity_tests identity p e h =
      ground (arith, list_beq_iff (to_string identity.address) p.address)

  pub identity_holds-IsAuthentic :
      (p : AnnounceProof) → identity_holds crypto hex p ≡ true → IsAuthentic p
  unfolding identity_holds
  identity_holds-IsAuthentic p h = elim (Outcome-cases (parse crypto hex p.public_identity)) [
    | inr (inl (x, e)) ↦ absurd (ground arith)
    | inr (inr e) ↦ absurd (ground arith)
    | inl (identity, e) ↦
        let (same, signed) = identity_tests identity p e h in
        let (sig, (decoded, size, valid)) = signature_holds-Signs identity p signed in
        record {
          identity = identity;
          sig = sig;
          parsed = e;
          same = same;
          decoded = decoded;
          size = size;
          valid = valid;
        }
  ]

  pub IsAuthentic-identity_holds :
      (p : AnnounceProof) → IsAuthentic p → identity_holds crypto hex p ≡ true
  unfolding identity_holds signature_holds
  IsAuthentic-identity_holds p a = ground (
    arith,
    a.parsed,
    a.decoded,
    a.size,
    a.valid,
    a.same,
    list_beq_iff (to_string a.identity.address) p.address,
  )

  pub proof_holds_iff :
      (t : Transport) (remote : SocketAddr) (p : AnnounceProof)
      → (proof_holds crypto hex t remote p ≡ true) ↔ (Matches t remote p × IsAuthentic p)
  unfolding proof_holds
  proof_holds_iff t remote p = elim (Option-cases (Dict.get t.pending_challenges remote)) [
    | inl e ↦ (λ h. absurd (ground arith), λ h. absurd (ground (arith, h.0)))
    | inr ((n, a), e) ↦ (
      λ h. (ground (arith, list_beq_iff a p.address), identity_holds-IsAuthentic p (ground arith)),
      λ h. ground (arith, h.0, IsAuthentic-identity_holds p h.1, list_beq_iff a p.address),
    )
  ]

  -- A proof is accepted exactly when its nonce and address are those of the challenge that is
  -- outstanding for the remote, its identity string parses to an identity of that address (which a
  -- public key of 32 bytes derives, and one of 64 bytes need not), the
  -- signature decodes to 64 bytes and verifies over the challenge material under the identity's key,
  -- the address is ten hexadecimal characters, and the remote is not bound to another address.
  pub verify_announce_proof_iff :
      (t : Transport) (remote : SocketAddr) (p : AnnounceProof)
      → (((verify_announce_proof crypto hex t remote p).1 ≡ true) ↔ (
          Matches t remote p
          × IsAuthentic p
          × IsAddressText p.address
          × IsFree (Dict.get t.announced remote) p.address))
  unfolding verify_announce_proof drop_challenge
  verify_announce_proof_iff t remote p = ground (
    arith,
    proof_holds_iff t remote p,
    remember_announce_iff (drop_challenge t remote) remote p.address,
  )

  -- After a proof the remote is bound to the proof's address if the proof is accepted, and no other
  -- binding changes; the remote's challenge is gone if the proof holds for it, and stays otherwise; the
  -- connections and the acknowledgements stay as they are.
  pub verify_announce_proof-effect :
      (t : Transport) (remote r : SocketAddr) (p : AnnounceProof)
      → let (t', accepted) = verify_announce_proof crypto hex t remote p in
        (Dict.get t'.announced r
          ≡ (if accepted && remote == r then some p.address else Dict.get t.announced r))
        × (Dict.get t'.pending_challenges r ≡ (
            if proof_holds crypto hex t remote p && remote == r
            then none
            else Dict.get t.pending_challenges r))
        × (t'.peers ≡ t.peers)
        × (t'.accepted ≡ t.accepted)
  unfolding verify_announce_proof drop_challenge remember_announce
  verify_announce_proof-effect t remote r p =
      let u : Transport = drop_challenge t remote in
      elim (Bool-cases (proof_holds crypto hex t remote p)) [
        | inl e ↦ rw (e) (
          announced-remember_announce u remote r p.address,
          ground (
            arith,
            tables-remember_announce u remote p.address,
            get-remove t.pending_challenges remote r,
          ),
          ground (arith, tables-remember_announce u remote p.address),
          ground (arith, tables-remember_announce u remote p.address),
        )
        | inr e ↦ ground arith
      ]
