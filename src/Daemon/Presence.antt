-- ===== src/Daemon/Presence.antt =====
-- src/main.rs: whose events reach the peer table and the members of the controller, and what is left
-- to do when a connection is reported as lost.
use zgalaxy_rs.Prelude.{
  ◌≡◌, refl, false, Option, none, arith, list_eq, nat_eq, Option-cases, Bool-cases, inl, inr,
}
use zgalaxy_rs.Prelude.Bytes.{Bytes}
use zgalaxy_rs.Prelude.Text.{Text}
use zgalaxy_rs.Prelude.Dict
use zgalaxy_rs.Prelude.Dict.{get-insert, get-remove}
use zgalaxy_rs.Prelude.Outcome.{Outcome-cases}
use zgalaxy_rs.Net.{SocketAddr, socket_eq}
use zgalaxy_rs.L2Switch
use zgalaxy_rs.Quic.{announced_address, verify_announce_proof, is_active}
use zgalaxy_rs.Quic.Control.{
  ControlMessage, node_announce, node_challenge, announce_proof, announce_accepted,
  network_config_request, network_config_response, ping, pong,
}
use zgalaxy_rs.Daemon.{
  Crates, Env, Node, QuicEvent, datagram, control, connected, disconnected, on_datagram,
  learn_source, mark_present, deliver, reply, own_proof, on_node_announce, on_node_challenge,
  on_announce_proof,
}
use zgalaxy_rs.Daemon.Serve.{
  handle, on_control, serve, on_config_request, on_ping, on_pong, on_disconnected,
}

module _ (crates : Crates) where
  open crates use {json, crypto, hex}

  -- The event comes from a remote without a proven address, and does not prove one now.
  abbrev pub Unproven : Node crates → SocketAddr → Type 0
  Unproven node remote = Dict.get node.quic.announced remote ≡ none

  abbrev Refused : Node crates → SocketAddr → ControlMessage json.Value → Type 0
  Refused node remote (announce_proof p) =
      (verify_announce_proof crypto hex node.quic remote p).1 ≡ false
  Refused node remote m = Unit {0}

  abbrev pub IsUnproven : Node crates → QuicEvent crates → Type 0
  IsUnproven node (datagram remote bytes) = Unproven node remote
  IsUnproven node (control remote m) = Unproven node remote × Refused node remote m
  IsUnproven node (connected remote) = Unit {0}
  IsUnproven node (disconnected remote id) = Unit {0}

  -- The tables that presence is about.
  abbrev pub Same : Node crates → Node crates → Type 0
  Same node' node = (node'.peers ≡ node.peers) × (node'.controller ≡ node.controller)

  on_datagram-Same :
      (env : Env) (node : Node crates) (remote : SocketAddr) (bytes : Bytes)
      → Unproven node remote
      → Same (on_datagram crates env node remote bytes) node
  unfolding on_datagram learn_source mark_present deliver announced_address
  on_datagram-Same env node remote bytes h = elim (Option-cases (L2Switch.parse_ethernet bytes)) [
    | inl e ↦ ground arith
    | inr ((dst, src), e) ↦ ground arith
  ]

  serve_lem :
      (env : Env) (node : Node crates) (remote : SocketAddr) (nwid : Text) (token : Option Text)
      → Unproven node remote
      → serve crates env node remote nwid token ≡ (node.controller, none)
  unfolding serve announced_address
  serve_lem env node remote nwid token h = elim (Bool-cases node.is_controller_node) [
    | inl e ↦ ground arith
    | inr e ↦ ground arith
  ]

  on_control-Same :
      (env : Env) (node : Node crates) (remote : SocketAddr) (m : ControlMessage json.Value)
      → Unproven node remote
      → Refused node remote m
      → Same (on_control crates env node remote m) node
  unfolding on_control on_node_announce on_node_challenge on_announce_proof on_config_request
      on_ping on_pong reply announced_address
  on_control-Same env node remote (node_announce a k) h r = (refl, refl)
  on_control-Same env node remote (node_challenge nonce) h r =
      elim (Outcome-cases (own_proof crates node.identity nonce)) [
        | inl (p, e) ↦ ground arith
        | inr (inl (x, e)) ↦ ground arith
        | inr (inr e) ↦ ground arith
      ]
  on_control-Same env node remote (announce_proof p) h r = ground arith
  on_control-Same env node remote (announce_accepted a) h r = (refl, refl)
  on_control-Same env node remote (network_config_request nwid token) h r =
      ground (arith, serve_lem env node remote nwid token h)
  on_control-Same env node remote (network_config_response nwid config) h r = (refl, refl)
  on_control-Same env node remote (ping nonce sent_ms) h r = (refl, refl)
  on_control-Same env node remote (pong nonce sent_ms received_ms) h r = ground arith

  -- No event from a remote that has not proven an address, unless it is a proof that is accepted,
  -- changes the peer table or the networks and members of the controller.
  pub handle-unproven :
      (env : Env) (node : Node crates) (event : QuicEvent crates)
      → IsUnproven node event
      → Same (handle crates env event node) node
  unfolding handle on_disconnected
  handle-unproven env node (datagram remote bytes) h = on_datagram-Same env node remote bytes h
  handle-unproven env node (control remote m) h = on_control-Same env node remote m h.0 h.1
  handle-unproven env node (connected remote) h = (refl, refl)
  handle-unproven env node (disconnected remote id) h =
      elim (Bool-cases (is_active node.quic remote id)) [
        | inl e ↦ ground arith
        | inr e ↦ ground arith
      ]
