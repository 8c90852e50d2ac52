-- ===== src/Daemon/Config.antt =====
-- src/main.rs: what the loop does with a controller's response, on the network's entry and on the
-- interface. The calls of the route manager and of the TUN device are a list of actions.
use zgalaxy_rs.Prelude.{
  ℕ, ◌%◌, ◌^◌, Bool, true, false, ◌&&◌, ◌||◌, not, Option, none, some, List, [], ◌∷◌, ◌++◌, map,
  contains, retain, filter_map, get_elem?, ltb, nat_beq, list_eq, nat_eq, if◌then◌else◌, ◌==◌,
}
use zgalaxy_rs.Prelude.Text.{Text, codes, trim, contains_char}
use zgalaxy_rs.Json.{Json, get_bool}
use zgalaxy_rs.Identity.Keys.{split}
use zgalaxy_rs.Network.Types.{Network, NetworkStatus, ok, access_denied, ManagedRoute, Sha256}
use zgalaxy_rs.Network.Disk.{NetworkText, SaveResults}
use zgalaxy_rs.Network.Manager
use zgalaxy_rs.Network.Manager.{NetworkManager, update_network}

pub data Action : Type 0 where
  set_mtu : ℕ → Action
  remove_interface_ip : Text → Action
  assign_address : Text → Text → Action
  remove_route : Text → Action
  add_route : Text → Action

-- `v.as_array()`, and `serde_json::from_value` to a route.
pub record ConfigJson (json : Json) : Type 0 where
  pub as_array : json.Value → Option (List json.Value)
  pub route_of : json.Value → Option ManagedRoute

abbrev pub is_ok : NetworkStatus → Bool
is_ok ok = true
is_ok _ = false

abbrev pub targets : List ManagedRoute → List Text
targets rs = map (λ r. r.target) rs

-- `net.routes.iter().find(...)`, the prefix length of the first route of the address's family.
unfoldable pub prefix_of : Bool → List ManagedRoute → Option Text
unfolding split
prefix_of is_v6 [] = none
prefix_of is_v6 (r ∷ rs) =
    let rest = prefix_of is_v6 rs in
    let colon = contains_char r.target b':' in
    elim r.via [
      | some via ↦ rest
      | none ↦
          if (if is_v6 then colon else not colon) then get_elem? (split b'/' r.target) 1 else rest
    ]

unfoldable pub cidr_of : List ManagedRoute → Text → Text
unfolding prefix_of
cidr_of routes ip =
    let is_v6 = contains_char ip b':' in
    let prefix_len : Text = elim (prefix_of is_v6 routes) [
      | some p ↦ p
      | none ↦ if is_v6 then codes "128" else codes "24"
    ] in
    if contains_char ip b'/' then ip else ip ++ (b'/' ∷ prefix_len)

abbrev pub is_default : Text → Bool
is_default target = target == codes "0.0.0.0/0" || target == codes "::/0"

unfoldable pub mtu_actions : Network → Network → List Action
mtu_actions old net =
    if ltb 0 net.mtu && not (nat_beq net.mtu old.mtu) then set_mtu net.mtu ∷ [] else []

unfoldable pub ip_actions : Network → Network → List Action
unfolding cidr_of
ip_actions old net =
    map remove_interface_ip
      (retain (λ ip. not (contains net.assigned_addresses ip)) old.assigned_addresses)
    ++ map (λ ip. assign_address (cidr_of net.routes ip) net.mac)
        (retain (λ ip. not (contains old.assigned_addresses ip) || not (is_ok old.status))
          net.assigned_addresses)

unfoldable pub route_actions : Network → Network → List Action
route_actions old net =
    map remove_route (retain (λ t. not (contains (targets net.routes) t)) (targets old.routes))
    ++ map add_route (
        retain (λ t. not (is_default t && not net.allow_default))
          (retain (λ t. not (contains (targets old.routes) t) || not (is_ok old.status))
            (targets net.routes)))

unfoldable pub flush_actions : Network → List Action
flush_actions old =
    map remove_interface_ip old.assigned_addresses ++ map remove_route (targets old.routes)

-- From the entry as it was to the entry as it is now.
unfoldable pub reconcile : Bool → Network → Network → List Action
unfolding mtu_actions ip_actions route_actions flush_actions
reconcile authorized old net =
    if authorized && net.allow_managed
    then mtu_actions old net ++ (ip_actions old net ++ route_actions old net)
    else if is_ok old.status && not authorized
    then flush_actions old
    else []

module _ (json : Json) (reader : ConfigJson json) where
  open json use {Value, get, as_u64, as_str}
  open reader use {as_array, route_of}

  abbrev pub or_false : Option Bool → Bool
  or_false none = false
  or_false (some b) = b

  abbrev pub field : {A : Type 0} → Value → Text → (Value → Option A) → Option A
  field config k read = elim (get config k) [ none ↦ none | some v ↦ read v ]

  unfoldable pub authorized_in : Value → Bool
  authorized_in config = or_false (get_bool json config (codes "authorized"))

  unfoldable pub addresses_in : Value → List Text
  addresses_in config = elim (field config (codes "ipAssignments") as_array) [
    | none ↦ []
    | some vs ↦ filter_map as_str vs
  ]

  -- A name that is not blank, trimmed.
  unfoldable pub name_in : Value → Text → Text
  unfolding trim
  name_in config old = elim (field config (codes "name") as_str) [
    | none ↦ old
    | some name ↦ elim (trim name) [ [] ↦ old | c ∷ cs ↦ c ∷ cs ]
  ]

  unfoldable pub routes_in : Value → List ManagedRoute → List ManagedRoute
  routes_in config old = elim (field config (codes "routes") as_array) [
    | none ↦ old
    | some vs ↦ filter_map route_of vs
  ]

  unfoldable pub mtu_in : Value → ℕ → ℕ
  mtu_in config old = elim (field config (codes "mtu") as_u64) [ none ↦ old | some m ↦ m % 2 ^ 32 ]

  unfoldable pub apply_config : Value → Network → Network
  unfolding authorized_in addresses_in name_in routes_in mtu_in
  apply_config config net = record net {
    name = name_in config net.name;
    membership_token = field config (codes "membershipToken") as_str;
    status = if authorized_in config then ok else access_denied;
    assigned_addresses = addresses_in config;
    routes = routes_in config net.routes;
    mtu = mtu_in config net.mtu;
  }

  unfoldable pub on_config_response :
      (codec : NetworkText)
      → Sha256
      → NetworkManager codec.Content
      → Text
      → Value
      → SaveResults
      → NetworkManager codec.Content × List Action
  unfolding apply_config reconcile authorized_in update_network
  on_config_response codec sha nm nwid config io = elim (Manager.get nm nwid) [
    | none ↦ (nm, [])
    | some old ↦
        let net = apply_config config old in
        (update_network codec sha nm net io, reconcile (authorized_in config) old net)
  ]
