-- ===== src/Tests/Peering.antt =====
-- The peer table and the choice of a path at concrete peers.
use zgalaxy_rs.Prelude.{◌≡◌, true, false, some, [], ◌∷◌, arith, if◌then◌else◌}
use zgalaxy_rs.Prelude.Text.{codes}
use zgalaxy_rs.Prelude.Int.{pos}
use zgalaxy_rs.Prelude.Dict
use zgalaxy_rs.Net.{SocketAddr, v4}
use zgalaxy_rs.Identity.Address.{Address, address_eq, address_beq}
use zgalaxy_rs.Peer.{
  Peer, PeerPath, leaf, new_path, add_or_update_peer, get_peer, path_text, best_index, latency,
}
use zgalaxy_rs.Peer.Score.{best_index-IsFirstBest, IsFirstBest}
use zgalaxy_rs.Peer.Record.{IsUpdated}
use zgalaxy_rs.Peer.Table.{IsValid, add_or_update_peer-IsValid}
use zgalaxy_rs.Tests.Crates.{printer}

abbrev node : Address
node = record { b0 = 0xa1; b1 = 0xb2; b2 = 0xc3; b3 = 0xd4; b4 = 0xe5 }

abbrev root : Address
root = record { b0 = 0x9d; b1 = 0x21; b2 = 0x90; b3 = 0x39; b4 = 0xf3 }

abbrev endpoint : SocketAddr
endpoint = record { ip = v4 0xc0a80107; port = 9993 }

none-IsValid : IsValid []
unfolding get_peer Dict.get
none-IsValid = record { unique = tt; each = λ a p h. ground arith }

add_or_update_peer-IsValid_example :
    IsValid (add_or_update_peer printer [] node leaf endpoint (pos 12) 100)
    × ((p : Peer) × (get_peer (add_or_update_peer printer [] node leaf endpoint (pos 12) 100) node
          ≡ some p)
        × IsUpdated (path_text printer endpoint) 100 (pos 12) p)
    × (get_peer (add_or_update_peer printer [] node leaf endpoint (pos 12) 100) root ≡ (
        if address_beq node root
        then get_peer (add_or_update_peer printer [] node leaf endpoint (pos 12) 100) node
        else get_peer [] root))
add_or_update_peer-IsValid_example =
    add_or_update_peer-IsValid printer [] node leaf endpoint (pos 12) 100 none-IsValid (omega arith)
      root

abbrev slow : PeerPath
slow = new_path (codes "10.0.0.1/9993") 100 (pos 80) true

abbrev fast : PeerPath
fast = new_path (codes "2001:db8::1/9993") 100 (pos 40) false

best_index-IsFirstBest_example :
    (q : PeerPath) × IsFirstBest 110 (slow ∷ fast ∷ []) (best_index 110 (slow ∷ fast ∷ [])) q
best_index-IsFirstBest_example =
    best_index-IsFirstBest 110 slow (fast ∷ []) (unfold latency in omega arith)
