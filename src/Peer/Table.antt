-- ===== src/Peer/Table.antt =====
-- The whole method on the table of peers.
use zgalaxy_rs.Prelude.{
  ℕ, ◌≡◌, refl, Bool, true, false, Option, none, some, arith, ap, if◌then◌else◌, sym, ◌∙◌, subst,
}
use zgalaxy_rs.Prelude.Int.{ℤ}
use zgalaxy_rs.Prelude.Text.{Text}
use zgalaxy_rs.Prelude.Dict
use zgalaxy_rs.Net.{SocketAddr}
use zgalaxy_rs.Identity.Address.{Address, address_eq, address_beq, address_beq_iff}
use zgalaxy_rs.Peer.{
  Peer, PeerPath, PeerRole, Peers, Printer, adopt_best, update_peer, add_or_update_peer, get_peer,
  path_text, new_peer, or_new,
}
use zgalaxy_rs.Peer.Update.{IsPeer}
use zgalaxy_rs.Peer.Record.{IsI32, IsUpdated, update_peer-IsUpdated}

-- Each address is bound once, to a well-formed record of that address.
pub record IsValid (peers : Peers) : Type 0 where
  pub unique : Dict.Unique peers
  pub each : (a : Address) (p : Peer) → get_peer peers a ≡ some p → IsPeer p × (p.address ≡ a)

adopt_best-address :
    (o : Option PeerPath) (peer : Peer) → (adopt_best o peer).address ≡ peer.address
unfolding adopt_best
adopt_best-address none peer = refl
adopt_best-address (some best) peer = refl

update_peer-address :
    (path_str : Text) (now : ℕ) (latency_ms : ℤ) (peer : Peer)
    → (update_peer path_str now latency_ms peer).address ≡ peer.address
unfolding update_peer
update_peer-address path_str now latency_ms peer = adopt_best-address _ _

module _ (printer : Printer) (peers : Peers) (address : Address) (role : PeerRole)
    (endpoint : SocketAddr) (latency_ms : ℤ) (now : ℕ) (v : IsValid peers)
    (i32 : IsI32 latency_ms) where
  before : Peer
  before = or_new (Dict.get peers address) (new_peer address role latency_ms now)

  before-IsPeer : IsPeer before × (before.address ≡ address)
  unfolding before
  before-IsPeer = go (Dict.get peers address) refl
    where
      go :
          (o : Option Peer)
          → Dict.get peers address ≡ o
          → IsPeer (or_new o (new_peer address role latency_ms now))
            × ((or_new o (new_peer address role latency_ms now)).address ≡ address)
      go none e = (record { distinct = tt; fits = tt }, refl)
      go (some p) e = v.each address p (unfold get_peer in e)

  after : Peer
  unfolding before
  after = update_peer (path_text printer endpoint) now latency_ms before

  after-address : after.address ≡ address
  unfolding after
  after-address =
      update_peer-address (path_text printer endpoint) now latency_ms before ∙ before-IsPeer.1

  after-IsUpdated : IsUpdated (path_text printer endpoint) now latency_ms after
  unfolding after
  after-IsUpdated =
      update_peer-IsUpdated (path_text printer endpoint) now latency_ms i32 before before-IsPeer.0

  after-Unique : Dict.Unique (add_or_update_peer printer peers address role endpoint latency_ms now)
  unfolding add_or_update_peer
  after-Unique = Dict.insert-Unique peers address _ v.unique

  get-after :
      (other : Address)
      → get_peer (add_or_update_peer printer peers address role endpoint latency_ms now) other
        ≡ (if address_beq address other then some after else get_peer peers other)
  unfolding get_peer add_or_update_peer after
  get-after other = Dict.get-insert peers address after other

  -- With an `i32` latency, a packet from an endpoint leaves a valid table valid and every other peer as it was. The sender has a
  -- record with a refreshed path for the endpoint, with exactly one preferred path, and with that
  -- path's address and latency as its own.
  pub add_or_update_peer-IsValid :
      (other : Address)
      → IsValid (add_or_update_peer printer peers address role endpoint latency_ms now)
        × ((p : Peer) × (get_peer
                (add_or_update_peer printer peers address role endpoint latency_ms now)
                address
              ≡ some p)
            × IsUpdated (path_text printer endpoint) now latency_ms p)
        × (get_peer (add_or_update_peer printer peers address role endpoint latency_ms now) other
            ≡ (if address_beq address other
                then get_peer
                    (add_or_update_peer printer peers address role endpoint latency_ms now)
                    address
                else get_peer peers other))
  add_or_update_peer-IsValid other = (
    record { unique = after-Unique; each = λ a p. each_after a p (address_beq address a) refl },
    (after, rw (get-after address, (address_beq_iff address address).1 refl), after-IsUpdated),
    ground (arith, get-after other, get-after address, address_beq_iff address address),
  )
    where
      each_after :
          (a : Address) (p : Peer) (b : Bool)
          → address_beq address a ≡ b
          → get_peer (add_or_update_peer printer peers address role endpoint latency_ms now) a
            ≡ some p
          → IsPeer p × (p.address ≡ a)
      each_after a p true e h =
          let same : address ≡ a = (address_beq_iff address a).0 e in
          let is_after : after ≡ p = ground (arith, get-after a) in
          (
            subst IsPeer is_after after-IsUpdated.valid,
            ap (λ q. q.address) (sym is_after) ∙ after-address ∙ same,
          )
      each_after a p false e h = v.each a p (ground (arith, get-after a))
