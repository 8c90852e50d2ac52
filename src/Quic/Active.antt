-- ===== src/Quic/Active.antt =====
-- src/quic.rs: what becomes of the tables when a connection is activated and when its reader ends.
use zgalaxy_rs.Prelude.{
  ℕ, ◌≡◌, refl, ◌&&◌, Bool, true, Option, List, [], ◌∷◌, ◌++◌, none, some, arith, if◌then◌else◌,
  Option-cases, Bool-cases, inl, inr, nat_beq, nat_beq_iff, ap, subst, not, ◌==◌, ◌∙◌,
}
use zgalaxy_rs.Prelude.Dict
use zgalaxy_rs.Prelude.Dict.{contains_key, get-insert, get-remove}
use zgalaxy_rs.Net.{SocketAddr, socket_beq, socket_beq_iff, socket_eq}
use zgalaxy_rs.Quic.{
  Effect, close, announce, disconnected, Transport, install, is_active, activate, reader_ended,
  drop_peer, forget_announced, forget_accepted,
}

-- The entry of a remote when the reader of `conn` has ended: only its own connection goes.
abbrev pub unless_own : ℕ → Option ℕ → Option ℕ
unless_own conn none = none
unless_own conn (some id) = if nat_beq id conn then none else some id

-- The reader of a connection that ended removes the remote from the table only if the connection
-- there is that one, but the remote's announcement and its acknowledgement in either case, also those
-- of a connection that has taken the place of the one that ended. Other remotes keep theirs, the
-- challenges stay, and the end is reported with the stable id.
pub reader_ended_lem :
    (t : Transport) (remote r : SocketAddr) (conn : ℕ)
    → let (t', effects) = reader_ended t remote conn in
      (Dict.get t'.peers r
        ≡ (if remote == r then unless_own conn (Dict.get t.peers remote) else Dict.get t.peers r))
      × (Dict.get t'.announced r ≡ (if remote == r then none else Dict.get t.announced r))
      × (Dict.get t'.accepted r ≡ (if remote == r then none else Dict.get t.accepted r))
      × (t'.pending_challenges ≡ t.pending_challenges)
      × (effects ≡ disconnected remote conn ∷ [])
unfolding reader_ended drop_peer is_active forget_announced forget_accepted
reader_ended_lem t remote r conn = (
  elim (Option-cases (Dict.get t.peers remote)) [
    | inl e ↦ ground (arith, e, socket_beq_iff remote r)
    | inr (id, e) ↦ ground (arith, e, socket_beq_iff remote r, get-remove t.peers remote r)
  ],
  ground (arith, get-remove t.announced remote r),
  ground (arith, get-remove t.accepted remote r),
  ground arith,
  refl,
)

-- Whether a connection takes the place of what a remote has, and what is closed for it.
abbrev pub takes_place : ℕ → Option ℕ → Bool
takes_place conn none = true
takes_place conn (some old) = not (nat_beq old conn)

abbrev pub closed : Option ℕ → List Effect
closed none = []
closed (some old) = close old ∷ []

-- With no other task in between, a connection that is not the one its remote has takes the place, whatever was there: the one that
-- it replaces is closed and its acknowledgement forgotten, while what the remote announced over it
-- stays bound, and this node announces itself on the new one. The connection that the remote has
-- changes nothing, and has no effect. Other remotes keep their entries.
pub activate_lem :
    (t : Transport) (remote r : SocketAddr) (conn : ℕ)
    → let (t', activated, effects) = activate t remote conn in
      let before = Dict.get t.peers remote in
      (activated ≡ takes_place conn before)
      × (Dict.get t'.peers r ≡ (if remote == r then some conn else Dict.get t.peers r))
      × (t'.announced ≡ t.announced)
      × (effects ≡ (
          if takes_place conn before
          then closed before ++ announce conn t.node_address t.public_identity ∷ []
          else []))
      × (Dict.get t'.accepted r ≡ (
          if takes_place conn before && (remote == r && Dict.contains_key t.peers remote)
          then none
          else Dict.get t.accepted r))
unfolding activate is_active install forget_accepted contains_key
activate_lem t remote r conn = elim (Option-cases (Dict.get t.peers remote)) [
  | inl e ↦ ground (arith, get-insert t.peers remote conn r)
  | inr (old, e) ↦ elim (Bool-cases (nat_beq old conn)) [
    | inr f ↦ ground (arith, get-insert t.peers remote conn r, get-remove t.accepted remote r)
    | inl f ↦ elim (Bool-cases (socket_beq remote r)) [
      | inl g ↦
          let here : Dict.get t.peers r ≡ some conn =
            subst (λ x. Dict.get t.peers x ≡ some conn) ((socket_beq_iff remote r).0 g)
              (e ∙ ap some ((nat_beq_iff old conn).0 f)) in
          ground arith
      | inr g ↦ ground arith
    ]
  ]
]
