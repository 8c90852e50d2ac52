-- ===== src/Peer.antt =====
-- src/peer.rs: the peer table and the choice of the preferred path. The clock is an argument; the
-- printed form of an IP address and of a number are parameters. A lock is held for the whole of each
-- method, so a method is one step on the table.
pub mod Score
pub mod Update
pub mod Record
pub mod Table
use zgalaxy_rs.Prelude.{
  ℕ, suc, ◌+◌, ◌-◌, ◌^◌, ◌≡◌, Bool, true, false, ◌&&◌, Option, none, some, List, [], ◌∷◌, ◌++◌, ltb,
  leb, HasEq, list_beq, nat_eq, if◌then◌else◌, map, get_elem?, nat_beq,
}
use zgalaxy_rs.Prelude.Text.{Text, codes, contains_char}
use zgalaxy_rs.Prelude.Int.{ℤ, pos, negsuc, ltb_ℤ, ◌-ℤ◌}
use zgalaxy_rs.Prelude.Dict
use zgalaxy_rs.Prelude.Dict.{Dict}
use zgalaxy_rs.Net.{IpAddr, SocketAddr}
use zgalaxy_rs.Identity.Address.{Address, address_eq}

pub data PeerRole : Type 0 where
  planet moon leaf : PeerRole

pub record PeerPath : Type 0 where
  pub address : Text
  pub last_send : ℕ
  pub last_receive : ℕ
  pub latency_ms : ℤ
  pub preferred : Bool
  pub trusted_path_id : ℕ
  pub active : Bool
  pub expired : Bool
  pub fixed : Bool

pub record Peer : Type 0 where
  pub address : Address
  pub role : PeerRole
  pub version : Text
  pub version_major : ℤ
  pub version_minor : ℤ
  pub version_rev : ℤ
  pub paths : List PeerPath
  pub latency_ms : ℤ
  pub last_contact : ℕ
  pub physical_address : Option Text

abbrev pub Peers : Type 0
Peers = Dict Address Peer

-- `p.active && now.saturating_sub(p.last_receive) < 60`
unfoldable pub is_alive : ℕ → PeerPath → Bool
is_alive now p = p.active && ltb (now - p.last_receive) 60

unfoldable pub is_v6 : PeerPath → Bool
is_v6 p = contains_char p.address b':'

-- `if p.latency_ms >= 0 { p.latency_ms } else { 999 }`
unfoldable pub latency : PeerPath → ℕ
latency p = elim (p.latency_ms) [ pos n ↦ n | negsuc _ ↦ 999 ]

-- An `i64`; the three terms are far from its bounds.
unfoldable pub score : ℕ → PeerPath → ℤ
unfolding is_alive is_v6 latency ◌-ℤ◌
score now p =
    let alive = is_alive now p in
    let bonus = (if alive then 10000 else 0) + (if is_v6 p && alive then 2000 else 0) in
    pos bonus -ℤ pos (latency p)

-- `i64::MIN`
abbrev pub min_score : ℤ
min_score = negsuc (2 ^ 63 - 1)

-- The loop over `paths.iter().enumerate()`: position, best score and best position so far.
unfoldable pub best_from : ℕ → List PeerPath → ℕ → ℤ → ℕ → ℕ
unfolding score
best_from now [] i best_score best_idx = best_idx
best_from now (p ∷ ps) i best_score best_idx =
    let s = score now p in
    best_from now ps (suc i) (if ltb_ℤ best_score s then s else best_score)
      (if ltb_ℤ best_score s then i else best_idx)

unfoldable pub best_index : ℕ → List PeerPath → ℕ
unfolding best_from
best_index now paths = best_from now paths 0 min_score 0

-- `p.preferred = i == best_idx`, from position `i` on.
unfoldable pub mark_from : ℕ → ℕ → List PeerPath → List PeerPath
mark_from best i [] = []
mark_from best i (p ∷ ps) = record p { preferred = nat_beq i best } ∷ mark_from best (suc i) ps

-- The path of this address if there is one: its times, its latency and its state are refreshed.
unfoldable pub refresh : Text → ℕ → ℤ → List PeerPath → Option (List PeerPath)
refresh path_str now latency_ms [] = none
refresh path_str now latency_ms (p ∷ ps) =
    let rest = refresh path_str now latency_ms ps in
    if list_beq p.address path_str
    then some (record p { last_receive = now; latency_ms = latency_ms; active = true } ∷ ps)
    else elim rest [ none ↦ none | some ps' ↦ some (p ∷ ps') ]

abbrev pub is_empty : List PeerPath → Bool
is_empty [] = true
is_empty (p ∷ ps) = false

abbrev pub new_path : Text → ℕ → ℤ → Bool → PeerPath
new_path path_str now latency_ms preferred = record {
  address = path_str;
  last_send = now;
  last_receive = now;
  latency_ms = latency_ms;
  preferred = preferred;
  trusted_path_id = 0;
  active = true;
  expired = false;
  fixed = false;
}

unfoldable pub touch_path : Text → ℕ → ℤ → List PeerPath → List PeerPath
unfolding refresh
touch_path path_str now latency_ms paths = elim (refresh path_str now latency_ms paths) [
  | some paths' ↦ paths'
  | none ↦ paths ++ new_path path_str now latency_ms (is_empty paths) ∷ []
]

-- `if let Some(best) = peer.paths.get(best_idx)`
unfoldable pub adopt_best : Option PeerPath → Peer → Peer
adopt_best none peer = peer
adopt_best (some best) peer = record peer {
  physical_address = some best.address;
  latency_ms = best.latency_ms;
}

abbrev pub new_peer : Address → PeerRole → ℤ → ℕ → Peer
new_peer address role latency_ms now = record {
  address = address;
  role = role;
  version = codes "1.3.0";
  version_major = pos 1;
  version_minor = pos 3;
  version_rev = pos 0;
  paths = [];
  latency_ms = latency_ms;
  last_contact = now;
  physical_address = none;
}

-- What the method does to the peer's record.
unfoldable pub update_peer : Text → ℕ → ℤ → Peer → Peer
unfolding touch_path best_index mark_from adopt_best
update_peer path_str now latency_ms peer =
    let paths = touch_path path_str now latency_ms peer.paths in
    let best = best_index now paths in
    let marked = mark_from best 0 paths in
    let peer' = record peer { latency_ms = latency_ms; last_contact = now; paths = marked } in
    adopt_best (get_elem? marked best) peer'

-- The parts of `std::fmt` that print a path.
pub record Printer : Type 0 where
  pub ip_text : IpAddr → Text
  pub decimal : ℕ → Text

abbrev pub or_new : Option Peer → Peer → Peer
or_new none p = p
or_new (some q) p = q

module _ (printer : Printer) where
  open printer use {ip_text, decimal}

  -- `format!("{}/{}", endpoint.ip(), endpoint.port())`
  unfoldable pub path_text : SocketAddr → Text
  path_text endpoint = ip_text endpoint.ip ++ (b'/' ∷ decimal endpoint.port)

  unfoldable pub add_or_update_peer : Peers → Address → PeerRole → SocketAddr → ℤ → ℕ → Peers
  unfolding update_peer path_text
  add_or_update_peer peers address role endpoint latency_ms now =
      let peer = or_new (Dict.get peers address) (new_peer address role latency_ms now) in
      Dict.insert peers address (update_peer (path_text endpoint) now latency_ms peer)

unfoldable pub get_peer : Peers → Address → Option Peer
get_peer peers address = Dict.get peers address

unfoldable pub list_peers : Peers → List Peer
list_peers peers = map (λ e. e.1) peers
