-- ===== src/Network/Manager.antt =====
-- src/network.rs: the methods of `NetworkManager`. The locks are released before a file is written,
-- but each method is one step here, as if no other task ran in between.
use zgalaxy_rs.Prelude.{
  ◌&&◌, not, ℕ, Bool, true, false, Option, none, some, List, [], length, if◌then◌else◌, map, nat_eq,
  list_eq,
}
use zgalaxy_rs.Prelude.Text.{Text, trim, to_lowercase}
use zgalaxy_rs.Prelude.Outcome.{Outcome, ok, ◌>>◌, ensure}
use zgalaxy_rs.Prelude.Dict
use zgalaxy_rs.Prelude.Dict.{Dict}
use zgalaxy_rs.Network.Types.{
  Network, NetworkSettingsUpdate, NetworkStatus, requesting_configuration, disconnected, Sha256,
  new_network,
}
use zgalaxy_rs.Network.Disk.{
  NetworkText, Disk, SaveResults, RemoveResults, persist_network_to_disk, delete_network_from_disk,
  LoadResults, load_json, load_conf, is_nwid,
}

-- The three cells of the manager, with the directory behind `working_dir`.
pub record NetworkManager (Content : Type 0) : Type 0 where
  pub networks : Dict Text Network
  pub node_address : Option Text
  pub has_working_dir : Bool
  pub disk : Disk Content

pub data NetworkError : Type 0 where
  bad_nwid : NetworkError

-- A manager without networks, before it has an address and a directory.
unfoldable pub new : {Content : Type 0} → Disk Content → NetworkManager Content
new disk = record { networks = []; node_address = none; has_working_dir = false; disk = disk }

unfoldable pub set_working_dir :
    {Content : Type 0} → NetworkManager Content → NetworkManager Content
set_working_dir nm = record nm { has_working_dir = true }

unfoldable pub set_node_address :
    {Content : Type 0} → NetworkManager Content → Text → NetworkManager Content
set_node_address nm address = record nm { node_address = some address }

-- `self.node_address.read().await.clone().unwrap_or_default()`
abbrev pub node_of : {Content : Type 0} → NetworkManager Content → Text
node_of nm = elim nm.node_address [ none ↦ [] | some a ↦ a ]

-- `nwid.trim().to_lowercase()`
unfoldable pub clean_nwid : Text → Text
unfolding trim
clean_nwid nwid = to_lowercase (trim nwid)

abbrev pub is_disconnected : NetworkStatus → Bool
is_disconnected disconnected = true
is_disconnected _ = false

-- What `join` does to a network that is in the table.
unfoldable pub rejoin : Network → Network
rejoin n = record n {
  connected = true;
  status = if is_disconnected n.status then requesting_configuration else n.status;
}

unfoldable pub disconnected_network : Network → Network
disconnected_network n = record n { connected = false; status = disconnected }

unfoldable pub connected_network : Network → Network
connected_network n = record n { connected = true; status = requesting_configuration }

abbrev pub absent : Option Bool → Bool
absent none = true
absent (some b) = false

abbrev pub or_old : Option Bool → Bool → Bool
or_old none old = old
or_old (some v) old = v

-- The status after an update of `connected`.
abbrev pub updated_status : Option Bool → NetworkStatus → NetworkStatus
updated_status none status = status
updated_status (some false) status = disconnected
updated_status (some true) status =
    if is_disconnected status then requesting_configuration else status

-- `NetworkSettingsUpdate::is_empty`.
unfoldable pub is_empty : NetworkSettingsUpdate → Bool
is_empty update =
    absent update.allow_managed
    && (absent update.allow_global
        && (absent update.allow_default && (absent update.allow_dns && absent update.connected)))

unfoldable pub apply_settings : NetworkSettingsUpdate → Network → Network
apply_settings update n = record n {
  allow_managed = or_old update.allow_managed n.allow_managed;
  allow_global = or_old update.allow_global n.allow_global;
  allow_default = or_old update.allow_default n.allow_default;
  allow_dns = or_old update.allow_dns n.allow_dns;
  connected = or_old update.connected n.connected;
  status = updated_status update.connected n.status;
}

unfoldable pub get : {Content : Type 0} → NetworkManager Content → Text → Option Network
unfolding clean_nwid
get nm nwid = Dict.get nm.networks (clean_nwid nwid)

unfoldable pub list : {Content : Type 0} → NetworkManager Content → List Network
list nm = map (λ e. e.1) nm.networks

module _ (codec : NetworkText) (sha : Sha256) where
  open codec use {Content}

  -- The table gets a network under a key, and the network is saved.
  unfoldable pub store :
      NetworkManager Content → Text → Network → SaveResults → NetworkManager Content
  store nm key net io = record nm {
    networks = Dict.insert nm.networks key net;
    disk = persist_network_to_disk codec nm.has_working_dir nm.disk net io;
  }

  -- `get_mut(&clean_nwid)?`, a change, and the save.
  unfoldable pub modify :
      (Network → Network)
      → NetworkManager Content
      → Text
      → SaveResults
      → NetworkManager Content × Option Network
  unfolding store
  modify f nm nwid io =
      let clean = clean_nwid nwid in
      elim (Dict.get nm.networks clean) [
        | none ↦ (nm, none)
        | some n ↦ (store nm clean (f n) io, some (f n))
      ]

  -- `entry(clean_nwid).and_modify(..).or_insert_with(..)`
  abbrev pub joined : NetworkManager Content → Text → Network
  joined nm clean = elim (Dict.get nm.networks clean) [
    | none ↦ new_network sha clean (node_of nm)
    | some n ↦ rejoin n
  ]

  unfoldable pub join :
      NetworkManager Content
      → Text
      → SaveResults
      → Outcome NetworkError (Network × NetworkManager Content)
  unfolding clean_nwid store rejoin new_network
  join nm nwid io = do
    let clean = clean_nwid nwid
    ensure (is_nwid clean) bad_nwid
    let net = joined nm clean
    ok (net, store nm clean net io)

  unfoldable pub update_network :
      NetworkManager Content → Network → SaveResults → NetworkManager Content
  unfolding store
  update_network nm net io = store nm net.nwid net io

  unfoldable pub disconnect :
      NetworkManager Content → Text → SaveResults → NetworkManager Content × Option Network
  unfolding modify disconnected_network
  disconnect = modify disconnected_network

  unfoldable pub connect :
      NetworkManager Content → Text → SaveResults → NetworkManager Content × Option Network
  unfolding modify connected_network
  connect = modify connected_network

  unfoldable pub update_settings :
      NetworkManager Content
      → Text
      → NetworkSettingsUpdate
      → SaveResults
      → NetworkManager Content × Option Network
  unfolding modify apply_settings
  update_settings nm nwid update io = modify (apply_settings update) nm nwid io

  unfoldable pub leave :
      NetworkManager Content → Text → RemoveResults → NetworkManager Content × Option Network
  unfolding clean_nwid delete_network_from_disk
  leave nm nwid io =
      let clean = clean_nwid nwid in
      let networks = Dict.remove nm.networks clean in
      elim (Dict.get nm.networks clean) [
        | none ↦ (record nm { networks = networks }, none)
        | some net ↦ (
          record nm {
            networks = networks;
            disk = delete_network_from_disk nm.has_working_dir nm.disk net.nwid io;
          },
          some net,
        )
      ]

  -- A directory that does not exist leaves the table as it was, and the number of networks is then 0.
  -- One that cannot be listed is an error, after the working directory is set.
  unfoldable pub load_from_disk :
      NetworkManager Content → LoadResults → NetworkManager Content × Option ℕ
  unfolding load_json load_conf set_working_dir
  load_from_disk nm io =
      let here = set_working_dir nm in
      let networks =
        load_conf sha (node_of nm) nm.disk.conf
          (load_json codec sha (node_of nm) io.readable nm.disk.json nm.networks) in
      if not io.exists
      then (here, some 0)
      else if io.opened && io.listed
      then (record here { networks = networks }, some (length networks))
      else (here, none)
