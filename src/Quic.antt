-- ===== src/Quic.antt =====
-- src/quic.rs, `struct QuicTransport`: the tables of the QUIC transport and the operations on them. A
-- connection stands for itself by its `stable_id`. Every function below that changes a table is one
-- critical section of the source, or the sections of one method in their order; what a method sends
-- or closes on the way is a list of effects. Log lines are left out.
pub mod Control
pub mod Active
pub mod Connect
pub mod Proof
pub mod Runs
use zgalaxy_rs.Prelude.{
  ℕ, Bool, true, false, ◌&&◌, not, Option, none, some, List, [], ◌∷◌, ◌++◌, length, all, nat_beq,
  list_eq, nat_eq, ◌==◌, if◌then◌else◌,
}
use zgalaxy_rs.Prelude.Bytes.{Bytes, be_bytes}
use zgalaxy_rs.Prelude.Text.{Text, codes, is_hex}
use zgalaxy_rs.Prelude.Dict
use zgalaxy_rs.Prelude.Dict.{Dict}
use zgalaxy_rs.Prelude.Outcome.{Outcome, ok, err, panic}
use zgalaxy_rs.Net.{SocketAddr, socket_eq}
use zgalaxy_rs.Identity.Address.Display.{HexCrate, to_string}
use zgalaxy_rs.Identity.Keys.{SignCrate, Identity, IdentityError, parse, verify}

abbrev pub max_datagram_size : ℕ
max_datagram_size = 1200

-- `peers` holds the stable id of the active connection; `running` tells whether `events` is set.
pub record Transport : Type 0 where
  pub peers : Dict SocketAddr ℕ
  pub announced : Dict SocketAddr Text
  pub pending_challenges : Dict SocketAddr (ℕ × Text)
  pub accepted : Dict SocketAddr Text
  pub running : Bool
  pub node_address : Text
  pub public_identity : Text

-- What a method does to the connections and to the event channel.
pub data Effect : Type 0 where
  close : ℕ → Effect
  announce : ℕ → Text → Text → Effect
  connected : SocketAddr → Effect
  disconnected : SocketAddr → ℕ → Effect

-- The tables of `bind`, for an endpoint that is bound.
unfoldable pub bind : Text → Text → Transport
bind node_address public_identity = record {
  peers = [];
  announced = [];
  pending_challenges = [];
  accepted = [];
  running = false;
  node_address = node_address;
  public_identity = public_identity;
}

unfoldable pub challenge_material : ℕ → Text → Bytes
challenge_material nonce address = codes "ZG1" ++ (be_bytes 8 nonce ++ address)

unfoldable pub record_accepted : Transport → SocketAddr → Text → Transport
record_accepted t remote address = record t { accepted = Dict.insert t.accepted remote address }

unfoldable pub announced_address : Transport → SocketAddr → Option Text
announced_address t remote = Dict.get t.announced remote

-- The tables' locked sections in `activate` and in its reader task.
unfoldable pub install : Transport → SocketAddr → ℕ → Transport
install t remote conn = record t { peers = Dict.insert t.peers remote conn }

unfoldable pub forget_accepted : Transport → SocketAddr → Transport
forget_accepted t remote = record t { accepted = Dict.remove t.accepted remote }

unfoldable pub forget_announced : Transport → SocketAddr → Transport
forget_announced t remote = record t { announced = Dict.remove t.announced remote }

-- `peers.get(&remote).map(|p| p.conn.stable_id() == conn.stable_id()).unwrap_or(false)`
unfoldable pub is_active : Transport → SocketAddr → ℕ → Bool
is_active t remote conn = elim (Dict.get t.peers remote) [
  | none ↦ false
  | some id ↦ nat_beq id conn
]

unfoldable pub drop_peer : Transport → SocketAddr → ℕ → Transport
unfolding is_active
drop_peer t remote conn =
    if is_active t remote conn then record t { peers = Dict.remove t.peers remote } else t

unfoldable pub activate : Transport → SocketAddr → ℕ → Transport × Bool × List Effect
unfolding is_active install forget_accepted
activate t remote conn =
    let hello = announce conn t.node_address t.public_identity in
    if is_active t remote conn then (t, false, []) else elim (Dict.get t.peers remote) [
      | none ↦ (install t remote conn, true, hello ∷ [])
      | some old ↦ (forget_accepted (install t remote conn) remote, true, close old ∷ hello ∷ [])
    ]

-- The end of the task that reads the datagrams of `conn`.
unfoldable pub reader_ended : Transport → SocketAddr → ℕ → Transport × List Effect
unfolding drop_peer forget_announced forget_accepted
reader_ended t remote conn = (
  forget_accepted (forget_announced (drop_peer t remote conn) remote) remote,
  disconnected remote conn ∷ [],
)

unfoldable pub handle_incoming : Transport → SocketAddr → ℕ → Transport × List Effect
unfolding activate
handle_incoming t remote conn =
    let (t', fresh, effects) = activate t remote conn in
    (t', if fresh then effects ++ connected remote ∷ [] else effects)

unfoldable pub remember_announce : Transport → SocketAddr → Text → Transport × Bool
remember_announce t remote address =
    let bound = record t { announced = Dict.insert t.announced remote address } in
    if not (nat_beq (length address) 10 && all is_hex address)
    then (t, false)
    else elim (Dict.get t.announced remote) [
      | none ↦ (bound, true)
      | some existing ↦ (t, existing == address)
    ]

-- `nonce` is the random number that the method draws, and returns.
unfoldable pub challenge_announce : Transport → SocketAddr → Text → ℕ → Transport × ℕ
challenge_announce t remote address nonce = (
  record t { pending_challenges = Dict.insert t.pending_challenges remote (nonce, address) },
  nonce,
)

unfoldable pub drop_challenge : Transport → SocketAddr → Transport
drop_challenge t remote = record t { pending_challenges = Dict.remove t.pending_challenges remote }

-- What an `AnnounceProof` carries.
pub record AnnounceProof : Type 0 where
  pub nonce : ℕ
  pub address : Text
  pub signature : Text
  pub public_identity : Text

module _ (crypto : SignCrate) (hex : HexCrate) where
  -- The signature, decoded to 64 bytes and valid for the challenge material.
  unfoldable pub signature_holds : Identity crypto → AnnounceProof → Bool
  unfolding challenge_material verify
  signature_holds identity p = elim (hex.decode p.signature) [
    | none ↦ false
    | some sig ↦
        nat_beq (length sig) 64 && verify crypto identity (challenge_material p.nonce p.address) sig
  ]

  unfoldable pub identity_holds : AnnounceProof → Bool
  unfolding parse signature_holds to_string
  identity_holds p = elim (parse crypto hex p.public_identity) [
    | ok identity ↦ to_string identity.address == p.address && signature_holds identity p
    | _ ↦ false
  ]

  -- The tests of `verify_announce_proof`, against the challenge that is outstanding.
  unfoldable pub proof_holds : Transport → SocketAddr → AnnounceProof → Bool
  unfolding identity_holds
  proof_holds t remote p = elim (Dict.get t.pending_challenges remote) [
    | none ↦ false
    | some (expected_nonce, expected_address) ↦
        nat_beq expected_nonce p.nonce && (expected_address == p.address && identity_holds p)
  ]

  unfoldable pub verify_announce_proof : Transport → SocketAddr → AnnounceProof → Transport × Bool
  unfolding proof_holds drop_challenge remember_announce
  verify_announce_proof t remote p =
      if proof_holds t remote p
      then remember_announce (drop_challenge t remote) remote p.address
      else (t, false)
