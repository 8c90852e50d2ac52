-- ===== src/Controller/Assign/Compliance.antt =====
-- What the modes promise: no address of a mode that is off is left, the addresses of the modes that
-- are on are there, and nothing else is added.
use zgalaxy_rs.Prelude.{
  ◌≡◌, inl, inr, true, false, not, ◌&&◌, ◌||◌, Option, some, List, retain, contains, nat_eq,
  list_eq, list_beq_iff, if◌then◌else◌, arith, Option-cases,
}
use zgalaxy_rs.Prelude.Bytes.{Bytes}
use zgalaxy_rs.Prelude.Text.{Text}
use zgalaxy_rs.Prelude.Outcome.{ok}
use zgalaxy_rs.Prelude.Dict
use zgalaxy_rs.Json.{Json}
use zgalaxy_rs.Controller.IpText.{IpText}
use zgalaxy_rs.Controller.Types.{NetworkConfig, Controller}
use zgalaxy_rs.Controller.Pools.{next_free_ip}
use zgalaxy_rs.Controller.Plane.{compute_6plane_ip, compute_rfc4193_ip}
use zgalaxy_rs.Controller.Plane.Octets.{compute_6plane_ip-shape, compute_rfc4193_ip-shape}
use zgalaxy_rs.Controller.Plane.Opaque.{Hmac, next_free_ipv6}
use zgalaxy_rs.Controller.Assign.{
  has_colon, has_prefix, fc, fd, stage_v4, stage_derived, is_custom, is_not_custom, is_v4_zt,
  is_6plane, is_rfc4193, is_zt_v6, assign_front, assign_in, auto_assign_ips_for_member,
}
use zgalaxy_rs.Controller.Assign.Modes.{
  is_some_of, contains-retain, contains-stage_derived, contains-stage_v4, prefix-exclusive,
  stage_zt_v6-off,
}

-- The list that a run without a custom range leaves.
module _ (ips : IpText) (hmac : Hmac) (json : Json) (ctrl : Controller json.Value)
    (net : NetworkConfig json.Value) (key : Bytes) (nwid member_id : Text)
    (current : List Text) where
  abbrev free : Option Text
  free = next_free_ip ips ctrl nwid net.ip_assignment_pools

  abbrev plane : Option Text
  plane = compute_6plane_ip ips nwid member_id

  abbrev rfc : Option Text
  rfc = compute_rfc4193_ip ips nwid member_id

  plane-shape :
      (x : Text) → is_some_of plane x ≡ true → (has_colon x ≡ true) × (has_prefix fc x ≡ true)
  plane-shape x h = elim (Option-cases (compute_6plane_ip ips nwid member_id)) [
    | inl e ↦ ground arith
    | inr (t, e) ↦ ground (arith, list_beq_iff t x, compute_6plane_ip-shape ips nwid member_id t e)
  ]

  rfc-shape : (x : Text) → is_some_of rfc x ≡ true → (has_colon x ≡ true) × (has_prefix fd x ≡ true)
  rfc-shape x h = elim (Option-cases (compute_rfc4193_ip ips nwid member_id)) [
    | inl e ↦ ground arith
    | inr (t, e) ↦ ground (arith, list_beq_iff t x, compute_rfc4193_ip-shape ips nwid member_id t e)
  ]

  -- The list after each stage.
  after_v4 : List Text
  after_v4 = stage_v4 (is_v4_zt ips hmac json net) free current

  after_plane : List Text
  unfolding after_v4
  after_plane = stage_derived (is_6plane ips hmac json net) plane fc after_v4

  front : List Text
  unfolding after_plane
  front = stage_derived (is_rfc4193 ips hmac json net) rfc fd after_plane

  is_plane : (x : Text) → compute_6plane_ip ips nwid member_id ≡ some x → is_some_of plane x ≡ true
  is_plane x e = ground (arith, list_beq_iff x x)

  is_rfc : (x : Text) → compute_rfc4193_ip ips nwid member_id ≡ some x → is_some_of rfc x ≡ true
  is_rfc x e = ground (arith, list_beq_iff x x)

  -- What is true of a text in the final list, and which texts are in it.
  pub record IsAssigned (out : List Text) (x : Text) : Type 0 where
    pub v4_off : is_v4_zt ips hmac json net ≡ false → contains out x ≡ true → has_colon x ≡ true
    pub plane_off :
        is_6plane ips hmac json net ≡ false → contains out x ≡ true → has_prefix fc x ≡ false
    pub rfc_off :
        is_rfc4193 ips hmac json net ≡ false → contains out x ≡ true → has_prefix fd x ≡ false
    pub zt_v6_off : contains out x ≡ true → is_custom x ≡ false
    pub plane_on :
        is_6plane ips hmac json net ≡ true
        → compute_6plane_ip ips nwid member_id ≡ some x
        → contains out x ≡ true
    pub rfc_on :
        is_rfc4193 ips hmac json net ≡ true
        → compute_rfc4193_ip ips nwid member_id ≡ some x
        → contains out x ≡ true
    pub sources :
        contains out x ≡ true
        → (contains current x
            || (is_some_of (next_free_ip ips ctrl nwid net.ip_assignment_pools) x
                || (is_some_of (compute_6plane_ip ips nwid member_id) x
                    || is_some_of (compute_rfc4193_ip ips nwid member_id) x)))
          ≡ true

  contains-front :
      (x : Text) → contains (retain is_not_custom front) x ≡ (contains front x && is_not_custom x)
  contains-front x = contains-retain is_not_custom front x

  contains-stage2 :
      (x : Text)
      → contains after_plane x ≡ (
          if is_6plane ips hmac json net
          then contains after_v4 x || is_some_of plane x
          else contains after_v4 x && (not (is_some_of plane x) && not (has_prefix fc x)))
  unfolding after_plane
  contains-stage2 x = contains-stage_derived (is_6plane ips hmac json net) plane fc after_v4 x

  contains-stage3 :
      (x : Text)
      → contains front x ≡ (
          if is_rfc4193 ips hmac json net
          then contains after_plane x || is_some_of rfc x
          else contains after_plane x && (not (is_some_of rfc x) && not (has_prefix fd x)))
  unfolding front
  contains-stage3 x = contains-stage_derived (is_rfc4193 ips hmac json net) rfc fd after_plane x

  contains-stage1_off :
      (x : Text)
      → is_v4_zt ips hmac json net ≡ false
      → contains after_v4 x ≡ true
      → has_colon x ≡ true
  unfolding after_v4
  contains-stage1_off x off h =
      ground (arith, contains-stage_v4 (is_v4_zt ips hmac json net) free current x)

  contains-stage1 :
      (x : Text) → contains after_v4 x ≡ true → (contains current x || is_some_of free x) ≡ true
  unfolding after_v4
  contains-stage1 x h =
      ground (arith, contains-stage_v4 (is_v4_zt ips hmac json net) free current x)

  front-IsAssigned : (x : Text) → IsAssigned (retain is_not_custom front) x
  front-IsAssigned x = record {
    v4_off = λ off h. ground (
      arith,
      contains-front x,
      contains-stage2 x,
      contains-stage3 x,
      contains-stage1_off x off,
      plane-shape x,
      rfc-shape x,
    );
    plane_off = λ off h. ground (
      arith,
      contains-front x,
      contains-stage2 x,
      contains-stage3 x,
      rfc-shape x,
      prefix-exclusive x,
    );
    rfc_off = λ off h. ground (arith, contains-front x, contains-stage3 x);
    zt_v6_off = ground (arith, contains-front x);
    plane_on = λ on e. ground (
      arith,
      contains-front x,
      contains-stage2 x,
      contains-stage3 x,
      is_plane x e,
      rfc-shape x,
      plane-shape x,
      prefix-exclusive x,
    );
    rfc_on = λ on e. ground (arith, contains-front x, contains-stage3 x, is_rfc x e, rfc-shape x);
    sources = λ h.
        ground (arith, contains-front x, contains-stage2 x, contains-stage3 x, contains-stage1 x);
  }

  -- For a network of the controller with the custom range off a run does not fail, and for every text
  -- its result meets `IsAssigned`: no IPv4 address, also none set by hand, no 6PLANE and no RFC 4193
  -- address is left where the mode is off, no custom IPv6 address is left, the derived address of each mode that is on is there, and all else was there before or is
  -- the next free IPv4 address.
  pub auto_assign-IsAssigned :
      Dict.get ctrl.networks nwid ≡ some net
      → is_zt_v6 ips hmac json net ≡ false
      → (out : List Text) × (auto_assign_ips_for_member ips hmac json ctrl key nwid member_id
            current
          ≡ ok out)
        × ((x : Text) → IsAssigned out x)
  unfolding auto_assign_ips_for_member assign_in assign_front front
  auto_assign-IsAssigned here off = (
    retain is_not_custom front,
    rw here (
        stage_zt_v6-off (is_zt_v6 ips hmac json net)
          (next_free_ipv6 ips hmac ctrl key nwid member_id net.ip_assignment_pools)
          (assign_front ips hmac json ctrl net nwid member_id current) off),
    front-IsAssigned,
  )
