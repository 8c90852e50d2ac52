-- ===== src/Controller/Members/Join.antt =====
-- `register_join_request`: who may join, and what a join leaves behind.
use zgalaxy_rs.Prelude.{
  ℕ, ◌≡◌, ◌≢◌, refl, Bool, true, false, not, ◌&&◌, Option, none, some, length, all, nat_beq, nat_eq,
  list_eq, list_beq, list_beq_iff, arith, Option-cases, Bool-cases, if◌then◌else◌, [], inl, inr,
  ◌∙◌, ap,
}
use zgalaxy_rs.Prelude.Bytes.{Bytes}
use zgalaxy_rs.Prelude.Text.{Text, is_hex}
use zgalaxy_rs.Prelude.Outcome.{ok}
use zgalaxy_rs.Prelude.Dict
use zgalaxy_rs.Json.{Json}
use zgalaxy_rs.Controller.IpText.{IpText}
use zgalaxy_rs.Controller.Types.{NetworkConfig, MemberRecord, Controller}
use zgalaxy_rs.Controller.Plane.Opaque.{Hmac}
use zgalaxy_rs.Controller.Assign.{is_zt_v6}
use zgalaxy_rs.Controller.Assign.Compliance.{auto_assign-IsAssigned}
use zgalaxy_rs.Controller.Members.{
  get_network, get_member, put_member, new_member, join_new, register_join_request,
  is_private_network,
}
use zgalaxy_rs.Controller.Members.Tables.{get_member-put_member}

module _ (ips : IpText) (hmac : Hmac) (json : Json) (c : Controller json.Value) (key : Bytes)
    (nwid member_id : Text) (identity : Option Text) (now : ℕ) (written : Bool) where
  -- The state and the record after a join that succeeds.
  pub record IsJoined (r : MemberRecord json.Value) (c' : Controller json.Value) : Type 0 where
    pub valid_id : (nat_beq (length member_id) 10 && all is_hex member_id) ≡ true
    pub known : get_network c nwid ≢ none
    pub members :
        (n m : Text)
        → get_member c' n m
          ≡ (if list_beq nwid n && list_beq member_id m then some r else get_member c n m)
    pub networks : c'.networks ≡ c.networks
    pub made : elim (get_member c nwid member_id) as (λ _. Type 0) [
      | none ↦ r.authorized ≡ not (is_private_network ips hmac json (get_network c nwid))
      | some e ↦ (r ≡ e) × (c' ≡ c)
    ]

  -- A member that is new is stored as `join_new` makes it.
  join_new-shape :
      (r : MemberRecord json.Value) (c' : Controller json.Value)
      → join_new ips hmac json c key nwid member_id identity now written ≡ ok (r, c')
      → (c' ≡ put_member c nwid member_id r)
        × (r.authorized ≡ not (is_private_network ips hmac json (get_network c nwid)))
  unfolding join_new new_member
  join_new-shape r c' h = ground arith

  register-new :
      (r : MemberRecord json.Value) (c' : Controller json.Value)
      → register_join_request ips hmac json c key nwid member_id identity now written ≡ ok (r, c')
      → get_member c nwid member_id ≡ none
      → (c' ≡ put_member c nwid member_id r)
        × (r.authorized ≡ not (is_private_network ips hmac json (get_network c nwid)))
  unfolding register_join_request
  register-new r c' h new = join_new-shape r c' (ground arith)

  put_member-networks :
      (r : MemberRecord json.Value) → (put_member c nwid member_id r).networks ≡ c.networks
  unfolding put_member
  put_member-networks r = refl

  -- A join that succeeds is for an id of ten hexadecimal digits and a network of this controller. A
  -- member that was known keeps its record, and the state is unchanged. A new member gets a record,
  -- authorized exactly if the network is public. Nothing else in the tables changes.
  pub register_join_request-IsJoined :
      (r : MemberRecord json.Value) (c' : Controller json.Value)
      → register_join_request ips hmac json c key nwid member_id identity now written ≡ ok (r, c')
      → IsJoined r c'
  unfolding register_join_request Dict.contains_key get_network
  register_join_request-IsJoined r c' h = elim (Option-cases (get_member c nwid member_id)) [
    | inl new ↦ record {
      valid_id = ground arith;
      known = ground arith;
      members = λ n m.
          ground (arith, register-new r c' h new, get_member-put_member c nwid member_id r n m);
      networks = ap (λ d. d.networks) (register-new r c' h new).0 ∙ put_member-networks r;
      made = rw new (register-new r c' h new).1;
    }
    | inr (e, old) ↦ record {
      valid_id = ground arith;
      known = ground arith;
      members = λ n m. ground (arith, list_beq_iff nwid n, list_beq_iff member_id m);
      networks = ground arith;
      made = rw old (ground arith);
    }
  ]

module _ (ips : IpText) (hmac : Hmac) (json : Json) where
  -- A request with an id of ten hexadecimal digits for a network of this controller that has no custom
  -- IPv6 range is answered with a record, if the record can be written.
  pub register_join_request-returns :
      (c : Controller json.Value) (net : NetworkConfig json.Value) (key : Bytes)
      (nwid member_id : Text) (identity : Option Text) (now : ℕ)
      → (nat_beq (length member_id) 10 && all is_hex member_id) ≡ true
      → Dict.get c.networks nwid ≡ some net
      → is_zt_v6 ips hmac json net ≡ false
      → (r : MemberRecord json.Value) × (c' : Controller json.Value) × (register_join_request ips
            hmac json c key nwid member_id identity now true
          ≡ ok (r, c'))
  unfolding register_join_request join_new Dict.contains_key get_network
  register_join_request-returns c net key nwid member_id identity now valid known off =
      let (out, assigned, each) =
        auto_assign-IsAssigned ips hmac json c net key nwid member_id [] known off in
      elim (Option-cases (get_member c nwid member_id)) [
        | inr (e, old) ↦ (e, c, ground arith)
        | inl new ↦ elim (Bool-cases net.is_private) [
          | inl closed ↦
              let r = new_member nwid member_id false [] identity now in
              (r, put_member c nwid member_id r, ground arith)
          | inr open_to_all ↦
              let r = new_member nwid member_id true out identity now in
              (r, put_member c nwid member_id r, ground arith)
        ]
      ]
