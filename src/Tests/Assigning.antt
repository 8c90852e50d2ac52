-- ===== src/Tests/Assigning.antt =====
-- The assignment of addresses at a concrete network.
use zgalaxy_rs.Prelude.{ℕ, ◌≡◌, refl, true, false, some, List, [], ◌∷◌, arith, nat_eq, list_eq}
use zgalaxy_rs.Prelude.Bytes.{of_be_bytes, le_bytes, be_bytes, of_le_bytes}
use zgalaxy_rs.Prelude.Text.{
  Text, codes, contains_char, starts_with, to_lowercase, hex_encode, hex_byte,
}
use zgalaxy_rs.Prelude.Outcome.{ok}
use zgalaxy_rs.Prelude.Dict
use zgalaxy_rs.Controller.Types.{NetworkConfig, IpAssignmentPool, Controller}
use zgalaxy_rs.Controller.Pools.{next_free_ip, used_v4, members_of}
use zgalaxy_rs.Controller.Pools.Search.{Search, next_free_ip-Search}
use zgalaxy_rs.Controller.Plane.{
  from_hex, hex_digits, octets_6plane, octets_rfc4193, compute_6plane_ip, compute_rfc4193_ip,
}
use zgalaxy_rs.Controller.Plane.Octets.{compute_6plane_ip-injective, compute_rfc4193_ip-injective}
use zgalaxy_rs.Controller.Plane.Opaque.{used_v6, range_of_v6, next_free_ipv6}
use zgalaxy_rs.Controller.Plane.Free6.{IsPartial, Found, next_free_ipv6-Found}
use zgalaxy_rs.Controller.Assign.{auto_assign_ips_for_member}
use zgalaxy_rs.Controller.Assign.Compliance.{IsAssigned, auto_assign-IsAssigned}
use zgalaxy_rs.Tests.Crates.{ip_text, hmac, json, Value, null, object, flag}

abbrev nwid : Text
nwid = codes "8056c2e21c000001"

abbrev pool : IpAssignmentPool
pool = record {
  ip_range_start = ip_text.v4_text 0x0a000001;
  ip_range_end = ip_text.v4_text 0x0a000003;
}

abbrev pool6 : IpAssignmentPool
pool6 = record { ip_range_start = ip_text.v6_text 1; ip_range_end = ip_text.v6_text 9 }

abbrev net : NetworkConfig Value
net = record {
  id = nwid;
  nwid = nwid;
  name = codes "office";
  is_private = false;
  creation_time = 1;
  revision = 1;
  mtu = 2800;
  multicast_limit = 32;
  enable_broadcast = true;
  routes = [];
  ip_assignment_pools = pool ∷ [];
  v4_assign_mode = (object, (codes "zt", flag true) ∷ []);
  v6_assign_mode = (object, (codes "6plane", flag true) ∷ []);
  rules = [];
  capabilities = [];
  tags = [];
  dns = (null, []);
}

abbrev ctrl : Controller Value
ctrl = record { controller_address = codes "8056c2e21c"; networks = (nwid, net) ∷ []; members = [] }

abbrev member_id : Text
member_id = codes "deadbeef01"

next_free_ip-Search_example :
    Search ip_text
      (used_v4 ip_text (members_of (Dict.get ctrl.members nwid)))
      (pool ∷ [])
      (next_free_ip ip_text ctrl nwid (pool ∷ []))
next_free_ip-Search_example = next_free_ip-Search ip_text ctrl nwid (pool ∷ [])

known : Dict.get ctrl.networks nwid ≡ some net
unfolding Dict.get
known = refl

auto_assign-IsAssigned_example :
    (out : List Text) × (auto_assign_ips_for_member ip_text hmac json ctrl
        (1 ∷ 2 ∷ [])
        nwid
        member_id
        []
      ≡ ok out)
    × ((x : Text) → IsAssigned ip_text hmac json ctrl net (1 ∷ 2 ∷ []) nwid member_id [] out x)
unfolding Dict.get
auto_assign-IsAssigned_example =
    auto_assign-IsAssigned ip_text hmac json ctrl net (1 ∷ 2 ∷ []) nwid member_id [] known refl

pool6-IsPartial : IsPartial ip_text hmac pool6
unfolding range_of_v6 hex_encode hex_byte be_bytes of_be_bytes le_bytes of_le_bytes
pool6-IsPartial h = ground arith

next_free_ipv6-Found_example :
    Found ip_text hmac
      (used_v6 ip_text hmac (members_of (Dict.get ctrl.members nwid)))
      (pool6 ∷ [])
      (next_free_ipv6 ip_text hmac ctrl (1 ∷ 2 ∷ []) nwid member_id (pool6 ∷ []))
next_free_ipv6-Found_example =
    next_free_ipv6-Found ip_text hmac ctrl (1 ∷ 2 ∷ []) nwid member_id (pool6 ∷ [])
      (pool6-IsPartial, tt)

abbrev network_number : ℕ
network_number = 0x8056c2e21c000001

abbrev member_number : ℕ
member_number = 0xdeadbeef01

abbrev plane : Text
plane = ip_text.v6_text (of_be_bytes (octets_6plane network_number member_number))

compute_6plane_ip-injective_example :
    (member_number ≡ member_number)
    × ((contains_char plane b':' ≡ true)
        × (starts_with (to_lowercase plane) (b'f' ∷ b'c' ∷ []) ≡ true))
unfolding from_hex hex_digits compute_6plane_ip
compute_6plane_ip-injective_example =
    compute_6plane_ip-injective ip_text nwid member_id (codes "DEADBEEF01") plane member_number
      member_number refl refl (omega arith) (omega arith) refl refl

abbrev rfc : Text
rfc = ip_text.v6_text (of_be_bytes (octets_rfc4193 network_number member_number))

compute_rfc4193_ip-injective_example :
    (network_number ≡ network_number)
    × (member_number ≡ member_number)
    × ((contains_char rfc b':' ≡ true) × (starts_with (to_lowercase rfc) (b'f' ∷ b'd' ∷ []) ≡ true))
unfolding from_hex hex_digits compute_rfc4193_ip
compute_rfc4193_ip-injective_example =
    compute_rfc4193_ip-injective ip_text nwid (codes "8056C2E21C000001") member_id
      (codes "DEADBEEF01") rfc network_number network_number member_number member_number refl refl
      refl refl (omega arith) (omega arith) (omega arith) (omega arith) refl refl
