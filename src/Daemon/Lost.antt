-- ===== src/Daemon/Lost.antt =====
-- src/main.rs with src/quic.rs: what the loop does about a connection that its reader reports as lost.
use zgalaxy_rs.Prelude.{
  ℕ, ◌≡◌, ◌≢◌, ◌∙◌, ap, refl, sym, subst, false, some, some_inj, List, [], ◌∷◌, All, arith, nat_eq,
  nat_beq_iff, if◌then◌else◌, Option-cases, Bool-cases, inl, inr,
}
use zgalaxy_rs.Prelude.Dict
use zgalaxy_rs.Net.{SocketAddr, socket_eq, socket_beq, socket_beq_iff}
use zgalaxy_rs.Quic.{Transport, is_active, activate, reader_ended}
use zgalaxy_rs.Quic.Active.{activate_lem, reader_ended_lem}
use zgalaxy_rs.Daemon.{Crates, Node}
use zgalaxy_rs.Daemon.Serve.{on_disconnected}

-- The connections that are activated between the end of a reader and the event it sent.
unfoldable pub activate_each : Transport → List (SocketAddr × ℕ) → Transport
unfolding activate
activate_each t [] = t
activate_each t ((remote, conn) ∷ later) = activate_each (activate t remote conn).0 later

inactive_iff :
    (t : Transport) (remote : SocketAddr) (id : ℕ)
    → Dict.get t.peers remote ≢ some id
    → is_active t remote id ≡ false
unfolding is_active
inactive_iff t remote id h = elim (Option-cases (Dict.get t.peers remote)) [
  | inl e ↦ ground arith
  | inr (x, e) ↦ ground (arith, nat_beq_iff x id)
]

active_iff :
    (t : Transport) (remote : SocketAddr) (id : ℕ)
    → is_active t remote id ≡ false
    → Dict.get t.peers remote ≢ some id
unfolding is_active
active_iff t remote id h = λ e. ground (arith, nat_beq_iff id id)

reader_ended-inactive :
    (t : Transport) (remote : SocketAddr) (id : ℕ)
    → is_active (reader_ended t remote id).0 remote id ≡ false
reader_ended-inactive t remote id =
    let here = (reader_ended_lem t remote remote id).0 in
    inactive_iff (reader_ended t remote id).0 remote id
      (elim (Option-cases (Dict.get t.peers remote)) [
        | inl e ↦ λ h. ground (arith, here, e, socket_beq_iff remote remote)
        | inr (x, e) ↦ λ h. ground (arith, here, e, nat_beq_iff x id, socket_beq_iff remote remote)
      ])

activate-inactive :
    (t : Transport) (remote r : SocketAddr) (id conn : ℕ)
    → is_active t remote id ≡ false
    → conn ≢ id
    → is_active (activate t r conn).0 remote id ≡ false
activate-inactive t remote r id conn h other =
    let here = (activate_lem t r remote conn).1 in
    inactive_iff (activate t r conn).0 remote id (elim (Bool-cases (socket_beq r remote)) [
      | inl e ↦ λ k.
          other (
            some_inj
              (sym (here ∙ ap (λ b. if b then some conn else Dict.get t.peers remote) e) ∙ k))
      | inr e ↦ λ k.
          active_iff t remote id h
            (sym (here ∙ ap (λ b. if b then some conn else Dict.get t.peers remote) e) ∙ k)
    ])

activate_each-inactive :
    (t : Transport) (remote : SocketAddr) (id : ℕ) (later : List (SocketAddr × ℕ))
    → is_active t remote id ≡ false
    → All (λ c. c.1 ≢ id) later
    → is_active (activate_each t later) remote id ≡ false
unfolding activate_each
activate_each-inactive t remote id [] h others = h
activate_each-inactive t remote id ((r, conn) ∷ later) h others =
    activate_each-inactive (activate t r conn).0 remote id later
      (activate-inactive t remote r id conn h others.0) others.1

module _ (crates : Crates) where
  -- When the reader of a connection has ended, and connections with other stable ids may have been
  -- activated since, the event that reports the end leaves the node as it is: the MACs that were
  -- learned from the remote stay in the switch.
  pub on_disconnected-unchanged :
      (node : Node crates) (t : Transport) (remote : SocketAddr) (id : ℕ)
      (later : List (SocketAddr × ℕ))
      → node.quic ≡ activate_each (reader_ended t remote id).0 later
      → All (λ c. c.1 ≢ id) later
      → on_disconnected crates node remote id ≡ node
  unfolding on_disconnected
  on_disconnected-unchanged node t remote id later e others =
      let inactive : is_active node.quic remote id ≡ false =
        subst (λ q. is_active q remote id ≡ false) (sym e)
          (activate_each-inactive (reader_ended t remote id).0 remote id later
            (reader_ended-inactive t remote id) others) in
      rw (on_disconnected, inactive) refl
