-- ===== src/Daemon.antt =====
-- src/main.rs, the engine loop: what the daemon does with each event of the QUIC transport. The state
-- is that of the components that the loop shares; sends and file writes may fail, and their results,
-- the clocks, the random nonce and the outcome of a dial are the event's environment.
pub mod Presence
pub mod Lost
pub mod Config
pub mod Interface
pub mod Synced
pub mod Handshake
pub mod Serve
pub mod Served
use zgalaxy_rs.Prelude.{
  ℕ, ◌-◌, ◌%◌, ◌^◌, Bool, true, false, ◌&&◌, not, Option, none, some, List, [], ◌∷◌, ◌++◌, length,
  ltb, leb, nat_beq, list_eq, nat_eq, if◌then◌else◌,
}
use zgalaxy_rs.Prelude.Int.{ℤ, pos, negsuc}
use zgalaxy_rs.Prelude.Bytes.{Bytes}
use zgalaxy_rs.Prelude.Text.{Text, hex_encode}
use zgalaxy_rs.Prelude.Dict
use zgalaxy_rs.Prelude.Dict.{Dict}
use zgalaxy_rs.Prelude.Outcome.{Outcome, ok, err, panic, ◌>>=◌}
use zgalaxy_rs.Net.{SocketAddr, socket_eq}
use zgalaxy_rs.Json.{Json}
use zgalaxy_rs.Identity.Address.{Address}
use zgalaxy_rs.Identity.Address.Display.{HexCrate, from_str, to_string}
use zgalaxy_rs.Identity.Keys.{SignCrate, Identity, IdentityError, sign, to_public_string}
use zgalaxy_rs.Peer.{Peers, PeerRole, leaf, Printer, add_or_update_peer, path_text}
use zgalaxy_rs.L2Switch
use zgalaxy_rs.L2Switch.{Table}
use zgalaxy_rs.Controller.Types.{Controller, NetworkConfig, MemberRecord, NetworkRoute}
use zgalaxy_rs.Controller.IpText.{IpText}
use zgalaxy_rs.Controller.Plane.Opaque.{Hmac}
use zgalaxy_rs.Controller.Token.{TokenCrates, issue_membership_token, verify_membership_token}
use zgalaxy_rs.Controller.Members.{
  ControllerError, get_network, get_effective_member, register_join_request, touch_member_last_seen,
}
use zgalaxy_rs.Quic.{
  Transport, AnnounceProof, announced_address, challenge_announce, challenge_material, is_active,
  record_accepted, verify_announce_proof,
}
use zgalaxy_rs.Quic.Control.{
  ControlMessage, MessageJson, node_announce, node_challenge, announce_proof, announce_accepted,
  network_config_request, network_config_response, ping, pong,
}
use zgalaxy_rs.Quic.Connect.{Dial, PeerConnection, send_control}

-- What `json!` turns into the configuration of a response.
pub record ConfigResponse : Type 0 where
  pub nwid : Text
  pub name : Text
  pub authorized : Bool
  pub ip_assignments : List Text
  pub routes : List NetworkRoute
  pub mtu : ℕ
  pub membership_token : Option Text

-- The crates that the components are given.
pub record Crates : Type 1 where
  pub json : Json
  pub tokens : TokenCrates json
  pub messages : MessageJson json.Value
  pub response_json : ConfigResponse → json.Value
  pub ips : IpText
  pub hmac : Hmac
  pub printer : Printer
  pub hex : HexCrate
  pub crypto : SignCrate

-- The environment of one event. `instant` and the presence times are seconds.
pub record Env : Type 0 where
  pub dial : Dial
  pub sent : PeerConnection → Bytes → Bool
  pub nonce : ℕ
  pub instant : ℕ
  pub unix_secs : ℕ
  pub unix_millis : ℕ
  pub written : Bool

abbrev pub peer_presence_interval : ℕ
peer_presence_interval = 5

-- A `u64` as an `i32`.
unfoldable pub as_i32 : ℕ → ℤ
as_i32 n = let low = n % 2 ^ 32 in if ltb low (2 ^ 31) then pos low else negsuc (2 ^ 32 - low - 1)

-- `last_presence.get(&remote).map(|t| t.elapsed() >= INTERVAL).unwrap_or(true)`
unfoldable pub presence_due : Dict SocketAddr ℕ → SocketAddr → ℕ → Bool
presence_due last remote now = elim (Dict.get last remote) [
  | none ↦ true
  | some t ↦ leb peer_presence_interval (now - t)
]

module _ (crates : Crates) where
  open crates use {json, tokens, messages, response_json, ips, hmac, printer, hex, crypto}

  pub record Node : Type 0 where
    pub quic : Transport
    pub controller : Controller json.Value
    pub peers : Peers
    pub switch : Table
    pub to_tun : List Bytes
    pub identity : Identity crypto
    pub controller_key : Bytes
    pub is_controller_node : Bool

  -- `QuicEvent`.
  pub data QuicEvent : Type 0 where
    datagram : SocketAddr → Bytes → QuicEvent
    control : SocketAddr → ControlMessage json.Value → QuicEvent
    connected : SocketAddr → QuicEvent
    disconnected : SocketAddr → ℕ → QuicEvent

  -- `let _ = quic_engine.send_control(remote, &message)`
  unfoldable pub reply : Env → Node → SocketAddr → ControlMessage json.Value → Node
  unfolding send_control
  reply env node remote message = record node {
    quic = (send_control messages env.dial env.sent node.quic remote message).0;
  }

  -- `if let Ok(node) = Address::from_str(&addr_str)`, and the peer's update.
  unfoldable pub refresh_peer : Env → Node → SocketAddr → Text → ℤ → Node
  unfolding from_str add_or_update_peer
  refresh_peer env node remote address latency_ms = elim (from_str hex address) [
    | ok a ↦ record node {
      peers = add_or_update_peer printer node.peers a leaf remote latency_ms env.unix_secs;
    }
    | _ ↦ node
  ]

  unfoldable pub touch_member : Env → Node → SocketAddr → Text → Node
  unfolding touch_member_last_seen path_text
  touch_member env node remote address = record node {
    controller =
        touch_member_last_seen node.controller address (path_text printer remote) env.unix_millis;
  }

  -- Both, for a peer that announced an address that parses.
  unfoldable pub mark_present : Env → Node → SocketAddr → Node
  unfolding announced_address from_str refresh_peer touch_member
  mark_present env node remote = elim (announced_address node.quic remote) [
    | none ↦ node
    | some address ↦ elim (from_str hex address) [
      | ok a ↦ touch_member env (refresh_peer env node remote address (pos 0)) remote address
      | _ ↦ node
    ]
  ]

  unfoldable pub learn_source : Env → Node → SocketAddr → Bytes → Node
  unfolding L2Switch.parse_ethernet L2Switch.learn
  learn_source env node remote bytes = elim (L2Switch.parse_ethernet bytes) [
    | none ↦ node
    | some (dst, src) ↦ record node { switch = L2Switch.learn node.switch src remote env.instant }
  ]

  unfoldable pub deliver : Node → Bytes → Node
  deliver node bytes = record node { to_tun = node.to_tun ++ bytes ∷ [] }

  -- `last` is the map of the presence times, which the loop makes anew for each event.
  unfoldable pub on_datagram_with : Dict SocketAddr ℕ → Env → Node → SocketAddr → Bytes → Node
  unfolding learn_source mark_present deliver presence_due
  on_datagram_with last env node remote bytes =
      let learned = learn_source env node remote bytes in
      let seen = mark_present env learned remote in
      deliver (if presence_due last remote env.instant then seen else learned) bytes

  unfoldable pub on_datagram : Env → Node → SocketAddr → Bytes → Node
  unfolding on_datagram_with
  on_datagram = on_datagram_with []

  unfoldable pub on_node_announce : Env → Node → SocketAddr → Text → Node
  unfolding challenge_announce reply
  on_node_announce env node remote address =
      let (quic', nonce) = challenge_announce node.quic remote address env.nonce in
      reply env (record node { quic = quic' }) remote (node_challenge nonce)

  -- The proof of the daemon's own identity.
  unfoldable pub own_proof : Identity crypto → ℕ → Outcome IdentityError AnnounceProof
  unfolding challenge_material to_string sign to_public_string hex_encode
  own_proof identity nonce =
      let address = to_string identity.address in
      sign crypto identity (challenge_material nonce address) >>= (λ sig. ok (record {
        nonce = nonce;
        address = address;
        signature = hex_encode sig;
        public_identity = to_public_string crypto identity;
      }))

  unfoldable pub on_node_challenge : Env → Node → SocketAddr → ℕ → Node
  unfolding own_proof reply
  on_node_challenge env node remote nonce = elim (own_proof node.identity nonce) [
    | ok p ↦ reply env node remote (announce_proof p)
    | _ ↦ node
  ]

  unfoldable pub on_announce_proof : Env → Node → SocketAddr → AnnounceProof → Node
  unfolding verify_announce_proof record_accepted reply refresh_peer touch_member
  on_announce_proof env node remote p =
      let (quic', proven) = verify_announce_proof crypto hex node.quic remote p in
      let trusted : Node = record node { quic = record_accepted quic' remote p.address } in
      let told = reply env trusted remote (announce_accepted p.address) in
      let seen = refresh_peer env told remote p.address (pos 0) in
      if proven then touch_member env seen remote p.address else record node { quic = quic' }
