-- ===== src/L2Switch.antt =====
-- src/l2_switch.rs: the MAC forwarding table and the Ethernet header. A lock is held for the whole of
-- each method, so a method is one step on the table. `Instant::now()` is an argument, in any unit, and
-- `elapsed` stops at 0.
pub mod Table
pub mod Frame
pub mod Refine
use zgalaxy_rs.Prelude.{
  ℕ, ◌-◌, ◌≡◌, Bool, true, not, Option, none, some, List, [], ◌∷◌, length, ltb, HasEq, list_eq,
  take, drop, if◌then◌else◌, replicate, ◌==◌, ◌&&◌, ◌%◌, nat_beq, nat_eq, get_elem?,
}
use zgalaxy_rs.Prelude.Bytes.{Bytes}
use zgalaxy_rs.Prelude.Dict
use zgalaxy_rs.Prelude.Dict.{Dict}
use zgalaxy_rs.Net.{SocketAddr, socket_eq, socket_beq}

abbrev pub eth_header_len : ℕ
eth_header_len = 14

-- `[u8; 6]`.
abbrev pub Mac : Type 0
Mac = Bytes

pub record SwitchEntry : Type 0 where
  pub endpoint : SocketAddr
  pub last_seen : ℕ

abbrev pub Table : Type 0
Table = Dict Mac SwitchEntry

abbrev pub new : Table
new = []

unfoldable pub learn : Table → Mac → SocketAddr → ℕ → Table
learn table mac endpoint now =
    Dict.insert table mac (record { endpoint = endpoint; last_seen = now })

abbrev pub endpoint_of : Option SwitchEntry → Option SocketAddr
endpoint_of none = none
endpoint_of (some e) = some e.endpoint

unfoldable pub resolve : Table → Mac → Option SocketAddr
resolve table mac = endpoint_of (Dict.get table mac)

unfoldable pub entry_count : Table → ℕ
entry_count table = length table

abbrev pub stays : SocketAddr → Mac → SwitchEntry → Bool
stays endpoint mac e = not (socket_beq e.endpoint endpoint)

-- The table without the endpoint, and how many entries went.
unfoldable pub remove_endpoint : Table → SocketAddr → Table × ℕ
remove_endpoint table endpoint =
    let kept = Dict.retain (stays endpoint) table in (kept, length table - length kept)

abbrev pub is_fresh : ℕ → ℕ → Mac → SwitchEntry → Bool
is_fresh now max_age mac e = ltb (now - e.last_seen) max_age

unfoldable pub evict_stale : Table → ℕ → ℕ → Table × ℕ
evict_stale table now max_age =
    let kept = Dict.retain (is_fresh now max_age) table in (kept, length table - length kept)

-- `(dst, src)` of a raw frame.
unfoldable pub parse_ethernet : Bytes → Option (Mac × Mac)
parse_ethernet frame =
    if ltb (length frame) eth_header_len then none else some (take 6 frame, take 6 (drop 6 frame))

unfoldable pub is_broadcast : Mac → Bool
is_broadcast mac = mac == replicate 6 0xff

-- `mac[0] & 0x01` is `mac[0] % 2`.
abbrev pub low_bit : Option ℕ → Bool
low_bit none = nat_beq 0 1
low_bit (some b) = nat_beq (b % 2) 1

unfoldable pub is_multicast : Mac → Bool
unfolding is_broadcast
is_multicast mac = not (is_broadcast mac) && low_bit (get_elem? mac 0)
