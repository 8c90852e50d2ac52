-- ===== src/Quic/Connect.antt =====
-- src/quic.rs: `connect`, `send_frame` and `send_control`. What the other tasks do to the tables
-- while `connect` waits, for its lock and for the handshake, is any function.
use zgalaxy_rs.Prelude.{
  ℕ, ◌≡◌, Bool, true, false, Option, none, some, List, [], ◌∷◌, length, ltb, arith, if◌then◌else◌,
  refl, Option-cases, Bool-cases, inl, inr, ap, sym, ◌∙◌,
}
use zgalaxy_rs.Prelude.Bytes.{Bytes}
use zgalaxy_rs.Prelude.Dict
use zgalaxy_rs.Prelude.Dict.{get-insert, get-remove}
use zgalaxy_rs.Prelude.Outcome.{Outcome, ok, err, ◌>>=◌}
use zgalaxy_rs.Net.{SocketAddr, socket_beq_iff, socket_eq}
use zgalaxy_rs.Quic.{
  Transport, Effect, max_datagram_size, close, announce, install, is_active, forget_accepted,
}
use zgalaxy_rs.Quic.Control.{ControlMessage, MessageJson, encode}

pub record PeerConnection : Type 0 where
  pub remote : SocketAddr
  pub conn : ℕ

pub data QuicError : Type 0 where
  not_started handshake_failed send_failed bad_message : QuicError
  frame_too_large : ℕ → QuicError

-- The environment of a call of `connect`: what the other tasks do to the tables while it waits for
-- its lock, during the handshake, between the look at the table and the insertion, while it waits to
-- forget the acknowledgement of a connection that it replaced, while this node is announced, and
-- before the table is read again; and the connection of the handshake, if that succeeds.
pub record Dial : Type 0 where
  pub waiting : Transport → Transport
  pub dialing : Transport → Transport
  pub looked : Transport → Transport
  pub replacing : Transport → Transport
  pub announcing : Transport → Transport
  pub rereading : Transport → Transport
  pub handshake : Option ℕ

abbrev pub Result : Type 0 → Type 0
Result A = Transport × List Effect × Outcome QuicError A

-- `activate` for the connection of the handshake, among the other tasks.
unfoldable pub activate_amid : Dial → Transport → SocketAddr → ℕ → Transport × Bool × List Effect
unfolding is_active install forget_accepted
activate_amid dial t remote conn =
    let hello = announce conn t.node_address t.public_identity in
    let here = dial.looked t in
    let taken = install here remote conn in
    if is_active t remote conn then (t, false, []) else elim (Dict.get here.peers remote) [
      | none ↦ (dial.announcing taken, true, hello ∷ [])
      | some old ↦ (
        dial.announcing (forget_accepted (dial.replacing taken) remote),
        true,
        close old ∷ hello ∷ [],
      )
    ]

-- The end of `connect`, with the connection of the handshake.
abbrev pub settled : Dial → SocketAddr → ℕ → Transport × Bool × List Effect → Result PeerConnection
settled dial remote conn (t, true, effects) =
    (t, effects, ok (record { remote = remote; conn = conn }))
settled dial remote conn (t, false, effects) =
    let later = dial.rereading t in
    elim (Dict.get later.peers remote) [
      | none ↦ (later, effects, ok (record { remote = remote; conn = conn }))
      | some id ↦ (later, effects, ok (record { remote = remote; conn = id }))
    ]

unfoldable pub dialed : Dial → Transport → SocketAddr → ℕ → Result PeerConnection
unfolding activate_amid
dialed dial t remote conn = settled dial remote conn (activate_amid dial t remote conn)

-- Under the lock: the table is looked at again, then the handshake is made.
unfoldable pub connect_locked : Dial → Transport → SocketAddr → Result PeerConnection
unfolding dialed
connect_locked dial t remote = elim (Dict.get t.peers remote) [
  | some id ↦ (t, [], ok (record { remote = remote; conn = id }))
  | none ↦ elim dial.handshake [
    | none ↦ (dial.dialing t, [], err handshake_failed)
    | some conn ↦ dialed dial (dial.dialing t) remote conn
  ]
]

unfoldable pub connect : Dial → Transport → SocketAddr → Result PeerConnection
unfolding connect_locked
connect dial t remote = elim (Dict.get t.peers remote) [
  | some id ↦ (t, [], ok (record { remote = remote; conn = id }))
  | none ↦
      if t.running then connect_locked dial (dial.waiting t) remote else (t, [], err not_started)
]

-- `sent` is the outcome of `conn.send_datagram`: the frame is handed over, or not.
unfoldable pub send_frame :
    Dial → (PeerConnection → Bytes → Bool) → Transport → SocketAddr → Bytes → Result Bytes
unfolding connect
send_frame dial sent t remote frame =
    let (t', effects, r) = connect dial t remote in
    (
      t',
      effects,
      r >>= (λ peer.
          if ltb max_datagram_size (length frame)
          then err (frame_too_large (length frame))
          else if sent peer frame
          then ok frame
          else err send_failed),
    )

unfoldable pub send_control :
    {V : Type 0}
    → MessageJson V
    → Dial
    → (PeerConnection → Bytes → Bool)
    → Transport
    → SocketAddr
    → ControlMessage V
    → Result Bytes
unfolding connect encode
send_control json dial sent t remote msg =
    let (t', effects, r) = connect dial t remote in
    (
      t',
      effects,
      r >>= (λ peer. elim (encode json msg) [
        | ok buf ↦ if sent peer buf then ok buf else err send_failed
        | _ ↦ err bad_message
      ]),
    )

-- While `connect` waits after the insertion, no other task changes the remote's entry.
pub record IsKept (dial : Dial) (remote : SocketAddr) : Type 0 where
  pub replacing :
      (t : Transport) → Dict.get (dial.replacing t).peers remote ≡ Dict.get t.peers remote
  pub announcing :
      (t : Transport) → Dict.get (dial.announcing t).peers remote ≡ Dict.get t.peers remote
  pub rereading :
      (t : Transport) → Dict.get (dial.rereading t).peers remote ≡ Dict.get t.peers remote

install-peers :
    (t : Transport) (remote : SocketAddr) (conn : ℕ)
    → Dict.get (install t remote conn).peers remote ≡ some conn
unfolding install
install-peers t remote conn =
    ground (arith, get-insert t.peers remote conn remote, socket_beq_iff remote remote)

-- A connection that is returned is the one in the table.
abbrev Holds : SocketAddr → Result PeerConnection → Type 0
Holds remote res =
    (peer : PeerConnection)
    → res.2 ≡ ok peer
    → (peer.remote ≡ remote) × (Dict.get res.0.peers remote ≡ some peer.conn)

ok_inj : {E A : Type 0} {a b : A} → (◌≡◌ {A = Outcome E A} (ok a) (ok b)) → a ≡ b
ok_inj h = cc

active-some :
    (t : Transport) (remote : SocketAddr) (conn : ℕ)
    → is_active t remote conn ≡ true
    → (id : ℕ) × (Dict.get t.peers remote ≡ some id)
unfolding is_active
active-some t remote conn h = elim (Option-cases (Dict.get t.peers remote)) [
  | inl e ↦ absurd (ground arith)
  | inr (id, e) ↦ (id, e)
]

fresh-Holds :
    (t : Transport) (effects : List Effect) (remote : SocketAddr) (conn : ℕ)
    → Dict.get t.peers remote ≡ some conn
    → Holds remote (t, effects, ok (record { remote = remote; conn = conn }))
fresh-Holds t effects remote conn e peer h =
    (ap (λ p. p.remote) (sym (ok_inj h)), e ∙ ap (λ p. some p.conn) (ok_inj h))

settled_active :
    (dial : Dial) (t : Transport) (remote : SocketAddr) (conn id : ℕ)
    → Dict.get (dial.rereading t).peers remote ≡ some id
    → settled dial remote conn (t, false, [])
      ≡ (dial.rereading t, [], ok (record { remote = remote; conn = id }))
settled_active dial t remote conn id e = rw (settled, e) refl

amid_active :
    (dial : Dial) (t : Transport) (remote : SocketAddr) (conn : ℕ)
    → is_active t remote conn ≡ true
    → activate_amid dial t remote conn ≡ (t, false, [])
unfolding activate_amid
amid_active dial t remote conn e = rw (activate_amid, e) refl

amid_free :
    (dial : Dial) (t : Transport) (remote : SocketAddr) (conn : ℕ)
    → is_active t remote conn ≡ false
    → Dict.get (dial.looked t).peers remote ≡ none
    → activate_amid dial t remote conn ≡ (
      dial.announcing (install (dial.looked t) remote conn),
      true,
      announce conn t.node_address t.public_identity ∷ [],
    )
unfolding activate_amid
amid_free dial t remote conn e f = rw (activate_amid, e, f) refl

amid_replaced :
    (dial : Dial) (t : Transport) (remote : SocketAddr) (conn old : ℕ)
    → is_active t remote conn ≡ false
    → Dict.get (dial.looked t).peers remote ≡ some old
    → activate_amid dial t remote conn ≡ (
      dial.announcing
          (forget_accepted (dial.replacing (install (dial.looked t) remote conn)) remote),
      true,
      close old ∷ announce conn t.node_address t.public_identity ∷ [],
    )
unfolding activate_amid
amid_replaced dial t remote conn old e f = rw (activate_amid, e, f) refl

dialed-Holds :
    (dial : Dial) (t : Transport) (remote : SocketAddr) (conn : ℕ)
    → IsKept dial remote
    → Holds remote (dialed dial t remote conn)
unfolding dialed forget_accepted
dialed-Holds dial t remote conn kept = elim (Bool-cases (is_active t remote conn)) [
  | inl e ↦
      let (id, found) = active-some t remote conn e in
      let later : Dict.get (dial.rereading t).peers remote ≡ some id = kept.rereading t ∙ found in
      rw (dialed, amid_active dial t remote conn e, settled_active dial t remote conn id later)
        (fresh-Holds (dial.rereading t) [] remote id later)
  | inr e ↦
      let taken : Transport = install (dial.looked t) remote conn in
      let held = install-peers (dial.looked t) remote conn in
      elim (Option-cases (Dict.get (dial.looked t).peers remote)) [
        | inl f ↦
            rw (dialed, amid_free dial t remote conn e f)
              (fresh-Holds (dial.announcing taken)
                (announce conn t.node_address t.public_identity ∷ []) remote conn
                (kept.announcing taken ∙ held))
        | inr (old, f) ↦
            let left : Transport = forget_accepted (dial.replacing taken) remote in
            rw (dialed, amid_replaced dial t remote conn old e f)
              (fresh-Holds (dial.announcing left)
                (close old ∷ announce conn t.node_address t.public_identity ∷ []) remote conn
                (kept.announcing left ∙ kept.replacing taken ∙ held))
      ]
]

connect_locked-Holds :
    (dial : Dial) (t : Transport) (remote : SocketAddr)
    → IsKept dial remote
    → Holds remote (connect_locked dial t remote)
unfolding connect_locked
connect_locked-Holds dial t remote kept = elim (Option-cases (Dict.get t.peers remote)) [
  | inr (id, e) ↦ rw (connect_locked, e) (fresh-Holds t [] remote id e)
  | inl e ↦ elim (Option-cases dial.handshake) [
    | inl f ↦ rw (connect_locked, e, f) (λ peer h. absurd (ground arith))
    | inr (conn, f) ↦
        rw (connect_locked, e, f) (dialed-Holds dial (dial.dialing t) remote conn kept)
  ]
]

running-Holds :
    (res : Result PeerConnection) (t : Transport) (remote : SocketAddr)
    → Holds remote res
    → (b : Bool) → Holds remote (if b then res else (t, [], err not_started))
running-Holds res t remote h true = h
running-Holds res t remote h false = λ peer k. absurd (ground arith)

connect-Holds :
    (dial : Dial) (t : Transport) (remote : SocketAddr)
    → IsKept dial remote
    → Holds remote (connect dial t remote)
unfolding connect
connect-Holds dial t remote kept = elim (Option-cases (Dict.get t.peers remote)) [
  | inr (id, e) ↦ rw (connect, e) (fresh-Holds t [] remote id e)
  | inl e ↦
      rw (connect, e)
        (running-Holds _ t remote (connect_locked-Holds dial (dial.waiting t) remote kept)
          t.running)
]

connect-present :
    (dial : Dial) (t : Transport) (remote : SocketAddr) (peer : PeerConnection)
    → peer.remote ≡ remote
    → Dict.get t.peers remote ≡ some peer.conn
    → connect dial t remote ≡ (t, [], ok peer)
unfolding connect
connect-present dial t remote peer same e = rw (connect, e) (ground arith)

-- Whatever the other tasks do until the connection of the handshake is in the table, and if they then
-- leave the remote's entry alone until `connect` returns: a `connect` that succeeds returns the
-- connection that the table holds for the remote, and a call that follows returns the same
-- connection, with no handshake and no effect.
pub connect-connect :
    (dial again : Dial) (t : Transport) (remote : SocketAddr) (peer : PeerConnection)
    → IsKept dial remote
    → let (t', effects, r) = connect dial t remote in
      r ≡ ok peer
      → (peer.remote ≡ remote)
        × (Dict.get t'.peers remote ≡ some peer.conn)
        × (connect again t' remote ≡ (t', [], ok peer))
connect-connect dial again t remote peer kept h =
    let (same, held) = connect-Holds dial t remote kept peer h in
    (same, held, connect-present again (connect dial t remote).0 remote peer same held)
