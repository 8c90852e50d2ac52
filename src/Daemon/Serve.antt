-- ===== src/Daemon/Serve.antt =====
-- src/main.rs: a controller's answer to a request for a network's configuration, the messages that
-- measure the round trip, the end of a connection, and the loop's choice between the events.
use zgalaxy_rs.Prelude.{
  ℕ, ◌-◌, Bool, true, false, ◌&&◌, not, Option, none, some, List, [], if◌then◌else◌,
}
use zgalaxy_rs.Prelude.Bytes.{Bytes}
use zgalaxy_rs.Prelude.Text.{Text}
use zgalaxy_rs.Prelude.Outcome.{ok}
use zgalaxy_rs.Net.{SocketAddr, socket_eq}
use zgalaxy_rs.L2Switch
use zgalaxy_rs.Controller.Types.{Controller, NetworkConfig, MemberRecord}
use zgalaxy_rs.Controller.Token.{issue_membership_token, verify_membership_token}
use zgalaxy_rs.Controller.Members.{get_network, get_effective_member, register_join_request}
use zgalaxy_rs.Quic.{announced_address, is_active, record_accepted}
use zgalaxy_rs.Quic.Control.{
  ControlMessage, node_announce, node_challenge, announce_proof, announce_accepted,
  network_config_request, network_config_response, ping, pong,
}
use zgalaxy_rs.Daemon.{
  Crates, Env, Node, ConfigResponse, QuicEvent, datagram, control, connected, disconnected, as_i32,
  reply, refresh_peer, on_datagram, on_node_announce, on_node_challenge, on_announce_proof,
}

module _ (crates : Crates) where
  open crates use {json, tokens, response_json, ips, hmac, hex}

  -- `member_rec.as_ref().map(|m| m.authorized).unwrap_or(false)`
  abbrev pub authorized_of : Option (MemberRecord json.Value) → Bool
  authorized_of none = false
  authorized_of (some m) = m.authorized

  abbrev pub ips_of : Option (MemberRecord json.Value) → List Text
  ips_of none = []
  ips_of (some m) = m.ip_assignments

  -- A token that is presented by an authorized member has to verify.
  unfoldable pub token_refused : Controller json.Value → Option Text → Bool → Text → Text → ℕ → Bool
  unfolding verify_membership_token
  token_refused c token authorized nwid member now = elim token [
    | none ↦ false
    | some presented ↦
        authorized && elim (verify_membership_token json tokens c presented nwid member now) [
          | none ↦ true
          | some claims ↦ false
        ]
  ]

  unfoldable pub response_for :
      Controller json.Value
      → NetworkConfig json.Value
      → Option (MemberRecord json.Value)
      → Text
      → Text
      → ℕ
      → ConfigResponse
  unfolding issue_membership_token
  response_for c net member_rec nwid member now =
      let authorized = authorized_of member_rec in
      record {
        nwid = nwid;
        name = net.name;
        authorized = authorized;
        ip_assignments = ips_of member_rec;
        routes = net.routes;
        mtu = net.mtu;
        membership_token =
            if authorized then issue_membership_token json tokens c nwid member now else none;
      }

  -- What is answered when the join request is registered. A panic of the address assignment ends the
  -- task, and nothing is answered.
  unfoldable pub answer :
      Env → Controller json.Value → Bytes → Text → Option Text → Text → Option ConfigResponse
  unfolding token_refused response_for get_network get_effective_member
  answer env c key nwid token member = elim (get_network c nwid) [
    | none ↦ none
    | some net ↦ elim (get_effective_member ips hmac json c key nwid member) [
      | ok member_rec ↦
          if token_refused c token (authorized_of member_rec) nwid member env.unix_secs
          then none
          else some (response_for c net member_rec nwid member env.unix_secs)
      | _ ↦ none
    ]
  ]

  -- The controller after the request, and the response, if there is one.
  unfoldable pub serve :
      Env
      → Node crates
      → SocketAddr
      → Text
      → Option Text
      → Controller json.Value × Option ConfigResponse
  unfolding answer announced_address register_join_request
  serve env node remote nwid token =
      let c = node.controller in
      let key = node.controller_key in
      if not node.is_controller_node then (c, none) else elim (announced_address node.quic remote) [
        | none ↦ (c, none)
        | some member ↦
            elim (register_join_request ips hmac json c key nwid member none env.unix_millis
              env.written) [
                | ok (r, c') ↦ (c', answer env c' key nwid token member)
                | _ ↦ (c, none)
              ]
      ]

  unfoldable pub on_config_request :
      Env → Node crates → SocketAddr → Text → Option Text → Node crates
  unfolding serve reply
  on_config_request env node remote nwid token =
      let (controller', response) = serve env node remote nwid token in
      let served : Node crates = record node { controller = controller' } in
      elim response [
        | none ↦ served
        | some r ↦ reply crates env served remote (network_config_response nwid (response_json r))
      ]

  unfoldable pub on_ping : Env → Node crates → SocketAddr → ℕ → ℕ → Node crates
  unfolding reply
  on_ping env node remote nonce sent_ms =
      reply crates env node remote (pong nonce sent_ms env.unix_millis)

  unfoldable pub on_pong : Env → Node crates → SocketAddr → ℕ → Node crates
  unfolding as_i32 refresh_peer announced_address
  on_pong env node remote sent_ms = elim (announced_address node.quic remote) [
    | none ↦ node
    | some address ↦
        refresh_peer crates env node remote address (as_i32 (env.unix_millis - sent_ms))
  ]

  unfoldable pub on_disconnected : Node crates → SocketAddr → ℕ → Node crates
  unfolding is_active L2Switch.remove_endpoint
  on_disconnected node remote stable_id =
      if is_active node.quic remote stable_id
      then record node { switch = (L2Switch.remove_endpoint node.switch remote).0 }
      else node

  -- A response to a request of this node is handled in `Daemon.Config`, on the networks that the node
  -- has joined, and changes nothing here.
  unfoldable pub on_control :
      Env → Node crates → SocketAddr → ControlMessage json.Value → Node crates
  unfolding on_node_announce on_node_challenge on_announce_proof on_config_request on_ping on_pong
      record_accepted
  on_control env node remote (node_announce address public_identity) =
      on_node_announce crates env node remote address
  on_control env node remote (node_challenge nonce) = on_node_challenge crates env node remote nonce
  on_control env node remote (announce_proof p) = on_announce_proof crates env node remote p
  on_control env node remote (announce_accepted address) = record node {
    quic = record_accepted node.quic remote address;
  }
  on_control env node remote (network_config_request nwid token) =
      on_config_request env node remote nwid token
  on_control env node remote (network_config_response nwid config) = node
  on_control env node remote (ping nonce sent_ms) = on_ping env node remote nonce sent_ms
  on_control env node remote (pong nonce sent_ms received_ms) = on_pong env node remote sent_ms

  unfoldable pub handle : Env → QuicEvent crates → Node crates → Node crates
  unfolding on_datagram on_control on_disconnected
  handle env (datagram remote bytes) node = on_datagram crates env node remote bytes
  handle env (control remote message) node = on_control env node remote message
  handle env (connected remote) node = node
  handle env (disconnected remote stable_id) node = on_disconnected node remote stable_id
