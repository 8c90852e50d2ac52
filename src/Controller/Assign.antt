-- ===== src/Controller/Assign.antt =====
-- `auto_assign_ips_for_member`: the addresses that the modes of a network give a member.
pub mod Modes
pub mod Compliance
use zgalaxy_rs.Prelude.{
  ℕ, Bool, true, false, not, ◌&&◌, ◌||◌, Option, none, some, List, [], ◌∷◌, ◌++◌, any, retain,
  contains, nat_eq, list_eq, list_beq, if◌then◌else◌, HasEq,
}
use zgalaxy_rs.Prelude.Bytes.{Bytes}
use zgalaxy_rs.Prelude.Text.{Text, codes, contains_char, starts_with, to_lowercase}
use zgalaxy_rs.Prelude.Outcome.{Outcome, ok, err, panic, ◌>>=◌}
use zgalaxy_rs.Prelude.Dict
use zgalaxy_rs.Json.{Json, get_bool}
use zgalaxy_rs.Controller.IpText.{IpText}
use zgalaxy_rs.Controller.Types.{NetworkConfig, Controller}
use zgalaxy_rs.Controller.Pools.{next_free_ip}
use zgalaxy_rs.Controller.Plane.{compute_6plane_ip, compute_rfc4193_ip}
use zgalaxy_rs.Controller.Plane.Opaque.{Hmac, next_free_ipv6}

abbrev pub has_colon : Text → Bool
has_colon ip = contains_char ip b':'

abbrev pub has_prefix : Text → Text → Bool
has_prefix prefix ip = starts_with (to_lowercase ip) prefix

abbrev pub fc : Text
fc = b'f' ∷ b'c' ∷ []

abbrev pub fd : Text
fd = b'f' ∷ b'd' ∷ []

abbrev pub unwrap_or : Option Bool → Bool → Bool
unwrap_or none d = d
unwrap_or (some b) d = b

-- `current_ips.push(ip)` for an address that was found.
abbrev pub push_some : List Text → Option Text → List Text
push_some ips none = ips
push_some ips (some ip) = ips ++ ip ∷ []

-- 1. IPv4; `free` is the next free address.
unfoldable pub stage_v4 : Bool → Option Text → List Text → List Text
stage_v4 on free ips =
    if on
    then if any (λ ip. not (has_colon ip)) ips then ips else push_some ips free
    else retain has_colon ips

abbrev pub drop_derived : Option Text → List Text → List Text
drop_derived none ips = ips
drop_derived (some ip) ips = retain (λ x. not (list_beq x ip)) ips

abbrev pub add_derived : Option Text → List Text → List Text
add_derived none ips = ips
add_derived (some ip) ips = if contains ips ip then ips else ips ++ ip ∷ []

-- 2. and 3. An address derived from the ids, and the prefix of its kind.
unfoldable pub stage_derived : Bool → Option Text → Text → List Text → List Text
stage_derived on derived prefix ips =
    if on
    then add_derived derived ips
    else retain (λ x. not (has_prefix prefix x)) (drop_derived derived ips)

-- An IPv6 address of neither kind.
abbrev pub is_custom : Text → Bool
is_custom ip = has_colon ip && (not (has_prefix fc ip) && not (has_prefix fd ip))

abbrev pub is_not_custom : Text → Bool
is_not_custom ip = not (has_colon ip) || (has_prefix fc ip || has_prefix fd ip)

-- 4. The custom range: a free address is looked for only where none is there.
unfoldable pub stage_zt_v6 :
    Bool → Outcome (Unit {0}) (Option Text) → List Text → Outcome (Unit {0}) (List Text)
stage_zt_v6 on free ips =
    let found = free >>= (λ f. ok (push_some ips f)) in
    if on then if any is_custom ips then ok ips else found else ok (retain is_not_custom ips)

module _ (ips : IpText) (hmac : Hmac) (json : Json) where
  -- The four modes of a network.
  abbrev pub is_v4_zt : NetworkConfig json.Value → Bool
  is_v4_zt net = unwrap_or (get_bool json net.v4_assign_mode (codes "zt")) true

  abbrev pub is_6plane : NetworkConfig json.Value → Bool
  is_6plane net = unwrap_or (get_bool json net.v6_assign_mode (codes "6plane")) false

  abbrev pub is_rfc4193 : NetworkConfig json.Value → Bool
  is_rfc4193 net = unwrap_or (get_bool json net.v6_assign_mode (codes "rfc4193")) false

  abbrev pub is_zt_v6 : NetworkConfig json.Value → Bool
  is_zt_v6 net = unwrap_or (get_bool json net.v6_assign_mode (codes "zt")) false

  -- The first three stages.
  unfoldable pub assign_front :
      Controller json.Value → NetworkConfig json.Value → Text → Text → List Text → List Text
  unfolding stage_v4 stage_derived
  assign_front ctrl net nwid member_id current =
      let v4 =
        stage_v4 (is_v4_zt net) (next_free_ip ips ctrl nwid net.ip_assignment_pools) current in
      let plane = stage_derived (is_6plane net) (compute_6plane_ip ips nwid member_id) fc v4 in
      stage_derived (is_rfc4193 net) (compute_rfc4193_ip ips nwid member_id) fd plane

  unfoldable pub assign_in :
      Option (NetworkConfig json.Value)
      → Controller json.Value
      → Bytes
      → Text
      → Text
      → List Text
      → Outcome (Unit {0}) (List Text)
  unfolding assign_front stage_zt_v6
  assign_in none ctrl key nwid member_id current = ok current
  assign_in (some net) ctrl key nwid member_id current =
      stage_zt_v6 (is_zt_v6 net)
        (next_free_ipv6 ips hmac ctrl key nwid member_id net.ip_assignment_pools)
        (assign_front ctrl net nwid member_id current)

  unfoldable pub auto_assign_ips_for_member :
      Controller json.Value → Bytes → Text → Text → List Text → Outcome (Unit {0}) (List Text)
  unfolding assign_in
  auto_assign_ips_for_member ctrl key nwid member_id current =
      assign_in (Dict.get ctrl.networks nwid) ctrl key nwid member_id current
