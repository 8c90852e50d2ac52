-- ===== src/Controller/Members.antt =====
-- src/controller.rs: the tables of networks and members. A method that writes a file takes the result
-- of the write as an argument, and the file itself is not modelled; a method that holds no lock while
-- it waits is one step here, as if no other task ran in between. Times are arguments.
pub mod Join
pub mod Tables
use zgalaxy_rs.Prelude.{
  ℕ, suc, ◌+◌, Bool, true, false, not, ◌&&◌, ◌||◌, Option, none, some, List, [], ◌∷◌, length, all,
  nat_beq, nat_eq, list_eq, if◌then◌else◌, map,
}
use zgalaxy_rs.Prelude.Bytes.{Bytes}
use zgalaxy_rs.Prelude.Text.{Text, codes, is_hex, starts_with}
use zgalaxy_rs.Prelude.Outcome.{Outcome, ok, err, panic, ◌>>=◌, ◌>>◌, ensure}
use zgalaxy_rs.Prelude.Dict
use zgalaxy_rs.Prelude.Dict.{Dict}
use zgalaxy_rs.Json.{Json}
use zgalaxy_rs.Controller.IpText.{IpText}
use zgalaxy_rs.Controller.Types.{NetworkConfig, MemberRecord, Members, Controller}
use zgalaxy_rs.Controller.Pools.{members_of}
use zgalaxy_rs.Controller.Plane.Opaque.{Hmac}
use zgalaxy_rs.Controller.Assign.{auto_assign_ips_for_member}

pub data ControllerError : Type 0 where
  bad_member_id unknown_network write_failed : ControllerError

-- `physical_address.starts_with("127.")` and the two forms of the IPv6 loopback address.
unfoldable pub is_loopback : Text → Bool
is_loopback address =
    starts_with address (codes "127.")
    || (starts_with address (codes "[::1]") || starts_with address (codes "::1"))

module _ {Value : Type 0} where
  unfoldable pub list_networks : Controller Value → List Text
  list_networks c = map (λ e. e.0) c.networks

  unfoldable pub get_network : Controller Value → Text → Option (NetworkConfig Value)
  get_network c nwid = Dict.get c.networks nwid

  unfoldable pub get_member : Controller Value → Text → Text → Option (MemberRecord Value)
  get_member c nwid member_id = Dict.get (members_of (Dict.get c.members nwid)) member_id

  -- Member ids with their revisions.
  unfoldable pub list_members : Controller Value → Text → Dict Text ℕ
  list_members c nwid = map (λ e. (e.0, e.1.revision)) (members_of (Dict.get c.members nwid))

  -- `members.entry(nwid).or_insert_with(HashMap::new).insert(member_id, record)`
  unfoldable pub put_member : Controller Value → Text → Text → MemberRecord Value → Controller Value
  put_member c nwid member_id r = record c {
    members =
        Dict.insert c.members nwid (Dict.insert (members_of (Dict.get c.members nwid)) member_id r);
  }

  unfoldable pub delete_network : Controller Value → Text → Controller Value × Bool
  delete_network c nwid =
      if Dict.contains_key c.networks nwid
      then (
        record c { networks = Dict.remove c.networks nwid; members = Dict.remove c.members nwid },
        true,
      )
      else (c, false)

  unfoldable pub delete_member : Controller Value → Text → Text → Controller Value × Bool
  delete_member c nwid member_id = elim (Dict.get c.members nwid) [
    | none ↦ (c, false)
    | some nwid_map ↦
        if Dict.contains_key nwid_map member_id
        then (
          record c { members = Dict.insert c.members nwid (Dict.remove nwid_map member_id) },
          true,
        )
        else (c, false)
  ]

  unfoldable pub touch_record : ℕ → Text → MemberRecord Value → MemberRecord Value
  unfolding is_loopback
  touch_record now address r = record r {
    last_seen = now;
    clock = now;
    physical_address = if is_loopback address then r.physical_address else some address;
  }

  -- `get_mut(member_id)` in one network.
  unfoldable pub touch_in : Text → ℕ → Text → Members Value → Members Value
  unfolding touch_record
  touch_in member_id now address m = elim (Dict.get m member_id) [
    | none ↦ m
    | some r ↦ Dict.insert m member_id (touch_record now address r)
  ]

  unfoldable pub touch_all : Text → ℕ → Text → Dict Text (Members Value) → Dict Text (Members Value)
  unfolding touch_in
  touch_all member_id now address [] = []
  touch_all member_id now address ((nwid, m) ∷ rest) =
      (nwid, touch_in member_id now address m) ∷ touch_all member_id now address rest

  unfoldable pub touch_member_last_seen : Controller Value → Text → Text → ℕ → Controller Value
  unfolding touch_all
  touch_member_last_seen c member_id address now = record c {
    members = touch_all member_id now address c.members;
  }

  -- The record of a node that asks to join.
  unfoldable pub new_member : Text → Text → Bool → List Text → Option Text → ℕ → MemberRecord Value
  new_member nwid member_id auto_auth ip_assignments identity now = record {
    id = member_id;
    nwid = nwid;
    objtype = codes "member";
    authorized = auto_auth;
    active_bridge = false;
    ip_assignments = ip_assignments;
    no_auto_assign_ips = false;
    revision = 1;
    creation_time = now;
    last_authorized_time = if auto_auth then now else 0;
    last_deauthorized_time = 0;
    last_seen = now;
    physical_address = none;
    client_version = codes "1.3.0";
    protocol_version = 12;
    clock = now;
    identity = identity;
    name = none;
    capabilities = [];
    tags = [];
  }

-- A run of the assignment has no error of its own: it returns or it panics.
abbrev pub lift : {A : Type 0} → Outcome (Unit {0}) A → Outcome ControllerError A
lift (ok a) = ok a
lift (err e) = panic
lift panic = panic

module _ (ips : IpText) (hmac : Hmac) (json : Json) where
  open json use {Value}

  -- `net.map(|n| n.private).unwrap_or(true)`
  abbrev pub is_private_network : Option (NetworkConfig Value) → Bool
  is_private_network none = true
  is_private_network (some n) = n.is_private

  -- The part of `register_join_request` for a member that is not known yet.
  unfoldable pub join_new :
      Controller Value
      → Bytes
      → Text
      → Text
      → Option Text
      → ℕ
      → Bool
      → Outcome ControllerError (MemberRecord Value × Controller Value)
  unfolding new_member put_member get_network
  join_new c key nwid member_id identity now written = do
    let auto_auth = not (is_private_network (get_network c nwid))
    let assigned = auto_assign_ips_for_member ips hmac json c key nwid member_id []
    ip_assignments ← (if auto_auth then lift assigned else ok [])
    ensure written write_failed
    let r = new_member nwid member_id auto_auth ip_assignments identity now
    ok (r, put_member c nwid member_id r)

  unfoldable pub register_join_request :
      Controller Value
      → Bytes
      → Text
      → Text
      → Option Text
      → ℕ
      → Bool
      → Outcome ControllerError (MemberRecord Value × Controller Value)
  unfolding join_new get_member get_network
  register_join_request c key nwid member_id identity now written = do
    ensure (nat_beq (length member_id) 10 && all is_hex member_id) bad_member_id
    ensure (Dict.contains_key c.networks nwid) unknown_network
    elim (get_member c nwid member_id) [
      | some existing ↦ ok (existing, c)
      | none ↦ join_new c key nwid member_id identity now written
    ]

  -- `get_effective_member`: the record with the addresses that a run of the assignment gives now.
  unfoldable pub get_effective_member :
      Controller Value → Bytes → Text → Text → Outcome ControllerError (Option (MemberRecord Value))
  unfolding get_member
  get_effective_member c key nwid member_id = elim (get_member c nwid member_id) [
    | none ↦ ok none
    | some r ↦
        if r.authorized && not r.no_auto_assign_ips
        then lift (auto_assign_ips_for_member ips hmac json c key nwid member_id r.ip_assignments)
          >>= (λ ip_assignments. ok (some (record r { ip_assignments = ip_assignments })))
        else ok (some r)
  ]
