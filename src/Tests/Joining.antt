-- ===== src/Tests/Joining.antt =====
-- The tables of networks and members at a concrete controller.
use zgalaxy_rs.Prelude.{
  ◌≡◌, refl, true, false, none, some, [], ◌∷◌, nat_eq, list_eq, list_beq, if◌then◌else◌, ◌&&◌,
}
use zgalaxy_rs.Prelude.Text.{Text, codes}
use zgalaxy_rs.Prelude.Outcome.{ok}
use zgalaxy_rs.Prelude.Dict
use zgalaxy_rs.Controller.Types.{NetworkConfig, MemberRecord, Controller}
use zgalaxy_rs.Controller.Members.{
  get_network, get_member, put_member, new_member, join_new, register_join_request, delete_network,
}
use zgalaxy_rs.Controller.Members.Join.{
  IsJoined, register_join_request-IsJoined, register_join_request-returns,
}
use zgalaxy_rs.Controller.Members.Tables.{delete_network_lem}
use zgalaxy_rs.Tests.Crates.{ip_text, hmac, json, Value, null}

abbrev pub nwid : Text
nwid = codes "8056c2e21c000001"

abbrev member_id : Text
member_id = codes "deadbeef01"

abbrev pub net : NetworkConfig Value
net = record {
  id = nwid;
  nwid = nwid;
  name = codes "closed";
  is_private = true;
  creation_time = 1;
  revision = 1;
  mtu = 2800;
  multicast_limit = 32;
  enable_broadcast = true;
  routes = [];
  ip_assignment_pools = [];
  v4_assign_mode = (null, []);
  v6_assign_mode = (null, []);
  rules = [];
  capabilities = [];
  tags = [];
  dns = (null, []);
}

abbrev pub ctrl : Controller Value
ctrl = record { controller_address = codes "8056c2e21c"; networks = (nwid, net) ∷ []; members = [] }

abbrev member : MemberRecord Value
unfolding new_member
member = new_member nwid member_id false [] none 77

abbrev joined : Controller Value
unfolding put_member
joined = put_member ctrl nwid member_id member

joins :
    register_join_request ip_text hmac json ctrl (1 ∷ []) nwid member_id none 77 true
    ≡ ok (member, joined)
unfolding register_join_request Dict.get Dict.contains_key join_new new_member put_member
    get_network get_member
joins = refl

register_join_request-IsJoined_example :
    IsJoined ip_text hmac json ctrl (1 ∷ []) nwid member_id none 77 true member joined
register_join_request-IsJoined_example =
    register_join_request-IsJoined ip_text hmac json ctrl (1 ∷ []) nwid member_id none 77 true
      member joined joins

known : Dict.get ctrl.networks nwid ≡ some net
unfolding Dict.get
known = refl

register_join_request-returns_example :
    (r : MemberRecord Value) × (c' : Controller Value) × (register_join_request ip_text hmac json
        ctrl
        (1 ∷ [])
        nwid
        member_id
        none
        77
        true
      ≡ ok (r, c'))
unfolding Dict.get
register_join_request-returns_example =
    register_join_request-returns ip_text hmac json ctrl net (1 ∷ []) nwid member_id none 77 refl
      known refl

delete_network_lem_example :
    ((delete_network joined nwid).1
      ≡ elim (get_network joined nwid) [ none ↦ false | some _ ↦ true ])
    × (get_network (delete_network joined nwid).0 nwid
        ≡ (if list_beq nwid nwid then none else get_network joined nwid))
    × (get_member (delete_network joined nwid).0 nwid member_id ≡ (
        if list_beq nwid nwid && (delete_network joined nwid).1
        then none
        else get_member joined nwid member_id))
    × ((delete_network joined nwid).0
        ≡ (if (delete_network joined nwid).1 then (delete_network joined nwid).0 else joined))
delete_network_lem_example = delete_network_lem joined nwid nwid member_id
