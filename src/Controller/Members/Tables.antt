-- ===== src/Controller/Members/Tables.antt =====
-- The methods on the tables, seen through `get_network` and `get_member`.
use zgalaxy_rs.Prelude.{
  ◌&&◌, Option, ℕ, ◌≡◌, refl, true, false, none, some, [], ◌∷◌, list_eq, nat_eq, list_beq,
  list_beq_iff, if◌then◌else◌, arith, Option-cases, inl, inr,
}
use zgalaxy_rs.Prelude.Text.{Text}
use zgalaxy_rs.Prelude.Dict
use zgalaxy_rs.Prelude.Dict.{Dict}
use zgalaxy_rs.Controller.Types.{MemberRecord, Members, Controller}
use zgalaxy_rs.Controller.Pools.{members_of}
use zgalaxy_rs.Controller.Members.{
  get_network, get_member, put_member, delete_network, delete_member, touch_member_last_seen,
  touch_all, touch_in, touch_record, is_loopback,
}

module _ {Value : Type 0} where
  pub get_member-put_member :
      (c : Controller Value) (nwid member_id : Text) (r : MemberRecord Value) (n m : Text)
      → get_member (put_member c nwid member_id r) n m ≡ (
          if list_beq nwid n
          then if list_beq member_id m then some r else get_member c n m
          else get_member c n m)
  unfolding get_member put_member
  get_member-put_member c nwid member_id r n m = ground (
    arith,
    list_beq_iff nwid n,
    Dict.get-insert c.members nwid (Dict.insert (members_of (Dict.get c.members nwid)) member_id r)
        n,
    Dict.get-insert (members_of (Dict.get c.members nwid)) member_id r m,
  )

  -- Deleting a network reports whether it was there. Then the network and all its members are gone,
  -- and every other network and member is as before; if it was not there, nothing changes at all.
  pub delete_network_lem :
      (c : Controller Value) (nwid n m : Text)
      → ((delete_network c nwid).1 ≡ elim (get_network c nwid) [ none ↦ false | some _ ↦ true ])
        × (get_network (delete_network c nwid).0 n
            ≡ (if list_beq nwid n then none else get_network c n))
        × (get_member (delete_network c nwid).0 n m
            ≡ (if list_beq nwid n && (delete_network c nwid).1 then none else get_member c n m))
        × ((delete_network c nwid).0
            ≡ (if (delete_network c nwid).1 then (delete_network c nwid).0 else c))
  unfolding delete_network get_network get_member Dict.contains_key
  delete_network_lem c nwid n m = (
    ground arith,
    ground (arith, list_beq_iff nwid n, Dict.get-remove c.networks nwid n),
    ground (arith, Dict.get-remove c.members nwid n, Dict.get-nil {V = MemberRecord Value} m),
    ground arith,
  )

  -- Deleting a member reports whether it was there. Then it is gone, and every other member of every
  -- network is as before, as are the networks; if it was not there, nothing changes at all.
  pub delete_member_lem :
      (c : Controller Value) (nwid member_id n m : Text)
      → ((delete_member c nwid member_id).1
          ≡ elim (get_member c nwid member_id) [ none ↦ false | some _ ↦ true ])
        × (get_member (delete_member c nwid member_id).0 n m
            ≡ (if list_beq nwid n && list_beq member_id m then none else get_member c n m))
        × ((delete_member c nwid member_id).0.networks ≡ c.networks)
        × ((delete_member c nwid member_id).0 ≡ (
            if (delete_member c nwid member_id).1 then (delete_member c nwid member_id).0 else c))
  unfolding delete_member get_member Dict.contains_key
  delete_member_lem c nwid member_id n m = (
    ground (arith, Dict.get-nil {V = MemberRecord Value} member_id),
    ground (
      arith,
      list_beq_iff nwid n,
      list_beq_iff member_id m,
      Dict.get-nil {V = MemberRecord Value} m,
      Dict.get-insert c.members nwid (Dict.remove (members_of (Dict.get c.members nwid)) member_id)
          n,
      Dict.get-remove (members_of (Dict.get c.members nwid)) member_id m,
    ),
    ground arith,
    ground arith,
  )

  get-touch_all :
      (member_id : Text) (now : ℕ) (address : Text) (ms : Dict Text (Members Value)) (n : Text)
      → Dict.get (touch_all member_id now address ms) n
        ≡ elim (Dict.get ms n) [ none ↦ none | some m ↦ some (touch_in member_id now address m) ]
  unfolding touch_all Dict.get
  get-touch_all member_id now address [] n = refl
  get-touch_all member_id now address ((k, m) ∷ ms) n =
      ground (arith, get-touch_all member_id now address ms n)

  get-touch_in :
      (member_id : Text) (now : ℕ) (address : Text) (m : Members Value) (k : Text)
      → Dict.get (touch_in member_id now address m) k ≡ (
          if list_beq member_id k
          then elim (Dict.get m k) [ none ↦ none | some r ↦ some (touch_record now address r) ]
          else Dict.get m k)
  unfolding touch_in
  get-touch_in member_id now address m k = elim (Option-cases (Dict.get m member_id)) [
    | inl e ↦ ground (arith, list_beq_iff member_id k)
    | inr (r, e) ↦ ground (
      arith,
      list_beq_iff member_id k,
      Dict.get-insert m member_id (touch_record now address r) k,
    )
  ]

  -- The record of the member after it was seen.
  abbrev pub seen : Text → ℕ → Option (MemberRecord Value) → Option (MemberRecord Value)
  seen address now none = none
  seen address now (some r) = some (record r {
    last_seen = now;
    clock = now;
    physical_address = if is_loopback address then r.physical_address else some address;
  })

  -- Touching a member sets its two clocks in every network that has it, records the address unless it
  -- is a loopback address, adds no record, and leaves every other record and all networks alone.
  pub touch_member_last_seen_lem :
      (c : Controller Value) (member_id address : Text) (now : ℕ) (n m : Text)
      → ((touch_member_last_seen c member_id address now).networks ≡ c.networks)
        × (get_member (touch_member_last_seen c member_id address now) n m ≡ (
            if list_beq member_id m then seen address now (get_member c n m) else get_member c n m))
  unfolding touch_member_last_seen get_member touch_record
  touch_member_last_seen_lem c member_id address now n m = (
    refl,
    elim (Option-cases (Dict.get c.members n)) [
      | inl e ↦ ground (
        arith,
        get-touch_all member_id now address c.members n,
        Dict.get-nil {V = MemberRecord Value} m,
      )
      | inr (t, e) ↦ ground (
        arith,
        get-touch_all member_id now address c.members n,
        get-touch_in member_id now address t m,
      )
    ],
  )
