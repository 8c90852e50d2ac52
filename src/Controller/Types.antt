-- ===== src/Controller/Types.antt =====
-- The records of src/controller.rs. A JSON value is of an abstract type.
use zgalaxy_rs.Prelude.{ℕ, Bool, Option, List}
use zgalaxy_rs.Prelude.Text.{Text}
use zgalaxy_rs.Prelude.Dict.{Dict}

pub record NetworkRoute : Type 0 where
  pub target : Text
  pub via : Option Text

pub record IpAssignmentPool : Type 0 where
  pub ip_range_start : Text
  pub ip_range_end : Text

pub record NetworkConfig (Value : Type 0) : Type 0 where
  pub id : Text
  pub nwid : Text
  pub name : Text
  pub is_private : Bool
  pub creation_time : ℕ
  pub revision : ℕ
  pub mtu : ℕ
  pub multicast_limit : ℕ
  pub enable_broadcast : Bool
  pub routes : List NetworkRoute
  pub ip_assignment_pools : List IpAssignmentPool
  pub v4_assign_mode : Value
  pub v6_assign_mode : Value
  pub rules : List Value
  pub capabilities : List Value
  pub tags : List Value
  pub dns : Value

pub record MemberRecord (Value : Type 0) : Type 0 where
  pub id : Text
  pub nwid : Text
  pub objtype : Text
  pub authorized : Bool
  pub active_bridge : Bool
  pub ip_assignments : List Text
  pub no_auto_assign_ips : Bool
  pub revision : ℕ
  pub creation_time : ℕ
  pub last_authorized_time : ℕ
  pub last_deauthorized_time : ℕ
  pub last_seen : ℕ
  pub physical_address : Option Text
  pub client_version : Text
  pub protocol_version : ℕ
  pub clock : ℕ
  pub identity : Option Text
  pub name : Option Text
  pub capabilities : List Value
  pub tags : List Value

abbrev pub Members : Type 0 → Type 0
Members Value = Dict Text (MemberRecord Value)

-- The in-memory state; `controller_address` in its printed form.
pub record Controller (Value : Type 0) : Type 0 where
  pub controller_address : Text
  pub networks : Dict Text (NetworkConfig Value)
  pub members : Dict Text (Members Value)
