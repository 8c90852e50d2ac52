-- ===== src/Network/Types.antt =====
-- src/network.rs: the records, and the MAC of a network. SHA-256 is a parameter.
use zgalaxy_rs.Prelude.{
  ℕ, ◌+◌, ◌*◌, ◌/◌, ◌≡◌, Bool, true, false, Option, none, List, [], ◌∷◌, ◌++◌, length, take,
}
use zgalaxy_rs.Prelude.Bytes.{Bytes, IsBytes}
use zgalaxy_rs.Prelude.Text.{Text, codes, hex_byte}

pub data NetworkStatus : Type 0 where
  ok access_denied not_found port_error requesting_configuration disconnected : NetworkStatus

pub record ManagedRoute : Type 0 where
  pub target : Text
  pub via : Option Text

pub record Network : Type 0 where
  pub nwid : Text
  pub name : Text
  pub status : NetworkStatus
  pub type_name : Text
  pub mac : Text
  pub mtu : ℕ
  pub broadcast_enabled : Bool
  pub assigned_addresses : List Text
  pub routes : List ManagedRoute
  pub port_device_name : Text
  pub membership_token : Option Text
  pub allow_managed : Bool
  pub allow_global : Bool
  pub allow_default : Bool
  pub allow_dns : Bool
  pub connected : Bool

pub record NetworkSettingsUpdate : Type 0 where
  pub allow_managed : Option Bool
  pub allow_global : Option Bool
  pub allow_default : Option Bool
  pub allow_dns : Option Bool
  pub connected : Option Bool

-- `Sha256::digest` of the bytes fed to it.
pub record Sha256 : Type 0 where
  pub digest : Bytes → Bytes
  pub digest_length : (bs : Bytes) → length (digest bs) ≡ 32
  pub digest_bytes : (bs : Bytes) → IsBytes (digest bs)

-- `(b & 0xfe) | 0x02` on a byte: the two low bits become 10.
abbrev pub local_unicast : ℕ → ℕ
local_unicast b = b / 4 * 4 + 2

-- Bytes in hexadecimal with a colon between two of them.
abbrev pub colon_hex : Bytes → Text
colon_hex [] = []
colon_hex (b ∷ []) = hex_byte b
colon_hex (b ∷ c ∷ bs) = hex_byte b ++ (b':' ∷ colon_hex (c ∷ bs))

-- The first byte of the six is overwritten.
abbrev pub local_mac : Bytes → Bytes
local_mac [] = []
local_mac (b ∷ bs) = local_unicast b ∷ bs

unfoldable pub derive_mac : Sha256 → Text → Text → Text
unfolding hex_byte
derive_mac sha nwid node_address =
    colon_hex (local_mac (take 6 (sha.digest (node_address ++ (b'|' ∷ nwid)))))

-- What `join` and the loading of a legacy file put in the table for a network id.
unfoldable pub new_network : Sha256 → Text → Text → Network
unfolding derive_mac
new_network sha nwid node = record {
  nwid = nwid;
  name = codes "ZT-" ++ nwid;
  status = requesting_configuration;
  type_name = codes "PRIVATE";
  mac = derive_mac sha nwid node;
  mtu = 2800;
  broadcast_enabled = true;
  assigned_addresses = [];
  routes = [];
  port_device_name = codes "zt-" ++ take 6 nwid;
  membership_token = none;
  allow_managed = true;
  allow_global = false;
  allow_default = false;
  allow_dns = false;
  connected = true;
}
