-- ===== src/Daemon/Served.antt =====
-- To whom a controller gives the configuration of a network, and what it says.
use zgalaxy_rs.Prelude.{
  ℕ, ◌≡◌, refl, Bool, true, false, Option, none, some, List, [], arith, Option-cases, Bool-cases,
  inl, inr, list_eq, nat_eq,
}
use zgalaxy_rs.Prelude.Bytes.{Bytes}
use zgalaxy_rs.Prelude.Text.{Text}
use zgalaxy_rs.Prelude.Dict
use zgalaxy_rs.Prelude.Outcome.{ok, Outcome-cases}
use zgalaxy_rs.Net.{SocketAddr, socket_eq}
use zgalaxy_rs.Controller.Types.{Controller, NetworkConfig, MemberRecord}
use zgalaxy_rs.Controller.Token.{verify_membership_token, issue_membership_token}
use zgalaxy_rs.Controller.Members.{get_network, get_effective_member, register_join_request}
use zgalaxy_rs.Quic.{announced_address}
use zgalaxy_rs.Quic.Runs.{Event, Reach}
use zgalaxy_rs.Quic.Runs.Sound.{IsProven, announced-IsProven}
use zgalaxy_rs.Daemon.{Crates, Env, Node, ConfigResponse}
use zgalaxy_rs.Daemon.Serve.{serve, answer, response_for, token_refused, authorized_of}

module _ (crates : Crates) where
  open crates use {json, tokens, ips, hmac, crypto, hex}

  -- A token that is presented verifies for the member.
  abbrev pub Verifies : Controller json.Value → Option Text → Text → Text → ℕ → Type 0
  Verifies c none nwid member now = Unit {0}
  Verifies c (some token) nwid member now =
      (claims : json.Value) × (verify_membership_token json tokens c token nwid member now
        ≡ some claims)

  -- What an answer to an authorized member rests on.
  abbrev pub Granted :
      Controller json.Value
      → Option (MemberRecord json.Value)
      → Option Text
      → Text
      → Text
      → ℕ
      → Type 0
  Granted c none token nwid member now = Unit {0}
  Granted c (some r) token nwid member now = elim r.authorized as (λ _. Type 0) [
    | true ↦ Verifies c token nwid member now
    | false ↦ Unit {0}
  ]

  -- What a response says of the member: without a record that it is not authorized, with no address
  -- and no token; with one, the record's authorization and addresses, and the token that is issued to
  -- it if it is authorized, and none if it is not.
  abbrev pub Says :
      Controller json.Value
      → Option (MemberRecord json.Value)
      → Text
      → Text
      → ℕ
      → ConfigResponse
      → Type 0
  Says c none nwid member now r =
      (r.authorized ≡ false) × (r.ip_assignments ≡ []) × (r.membership_token ≡ none)
  Says c (some m) nwid member now r =
      (r.authorized ≡ m.authorized)
      × (r.ip_assignments ≡ m.ip_assignments)
      × (r.membership_token ≡ elim m.authorized [
        | true ↦ issue_membership_token json tokens c nwid member now
        | false ↦ none
      ])

  -- A response about network `nwid` to `member`, from the controller's tables after the request: the
  -- network's own name, routes and MTU; what it says of the member's effective record; and that a
  -- token which an authorized member presents verifies.
  pub record IsAnswer (env : Env) (c : Controller json.Value) (key : Bytes) (nwid : Text)
      (token : Option Text) (member : Text) (r : ConfigResponse) : Type 0 where
    pub net : NetworkConfig json.Value
    pub found : get_network c nwid ≡ some net
    pub member_rec : Option (MemberRecord json.Value)
    pub effective : get_effective_member ips hmac json c key nwid member ≡ ok member_rec
    pub about : r.nwid ≡ nwid
    pub name : r.name ≡ net.name
    pub routes : r.routes ≡ net.routes
    pub mtu : r.mtu ≡ net.mtu
    pub says : Says c member_rec nwid member env.unix_secs r
    pub granted : Granted c member_rec token nwid member env.unix_secs

  granted_lem :
      (c : Controller json.Value) (member_rec : Option (MemberRecord json.Value))
      (token : Option Text) (nwid member : Text) (now : ℕ)
      → token_refused crates c token (authorized_of crates member_rec) nwid member now ≡ false
      → Granted c member_rec token nwid member now
  unfolding token_refused
  granted_lem c none token nwid member now h = tt
  granted_lem c (some r) token nwid member now h = go (r.authorized) token refl h
    where
      go :
          (b : Bool) (token : Option Text)
          → r.authorized ≡ b
          → token_refused crates c token b nwid member now ≡ false
          → elim b as (λ _. Type 0) [ true ↦ Verifies c token nwid member now | false ↦ Unit {0} ]
      go false token e k = tt
      go true none e k = tt
      go true (some t) e k =
          elim (Option-cases (verify_membership_token json tokens c t nwid member now)) [
            | inl f ↦ absurd (ground arith)
            | inr (claims, f) ↦ (claims, f)
          ]

  response_for-Says :
      (c : Controller json.Value) (net : NetworkConfig json.Value)
      (member_rec : Option (MemberRecord json.Value)) (nwid member : Text) (now : ℕ)
      → Says c member_rec nwid member now (response_for crates c net member_rec nwid member now)
  unfolding response_for
  response_for-Says c net none nwid member now = (refl, refl, refl)
  response_for-Says c net (some m) nwid member now = (refl, refl, ground arith)

  answer-IsAnswer :
      (env : Env) (c : Controller json.Value) (key : Bytes) (nwid : Text) (token : Option Text)
      (member : Text) (r : ConfigResponse)
      → answer crates env c key nwid token member ≡ some r
      → IsAnswer env c key nwid token member r
  unfolding answer response_for
  answer-IsAnswer env c key nwid token member r h = elim (Option-cases (get_network c nwid)) [
    | inl e ↦ absurd (ground arith)
    | inr (net, e) ↦ elim (Outcome-cases (get_effective_member ips hmac json c key nwid member)) [
      | inr (inl (x, f)) ↦ absurd (ground arith)
      | inr (inr f) ↦ absurd (ground arith)
      | inl (m, f) ↦
          elim (Bool-cases
            (token_refused crates c token (authorized_of crates m) nwid member env.unix_secs)) [
              | inl g ↦ absurd (ground arith)
              | inr g ↦
                  let same : response_for crates c net m nwid member env.unix_secs ≡ r =
                    ground arith in
                  rw (← same) (record {
                    net = net;
                    found = e;
                    member_rec = m;
                    effective = f;
                    about = refl;
                    name = refl;
                    routes = refl;
                    mtu = refl;
                    says = response_for-Says c net m nwid member env.unix_secs;
                    granted = granted_lem c m token nwid member env.unix_secs g;
                  })
            ]
    ]
  ]

  -- What a response to a remote rests on: the node is a controller, the remote has proven an address
  -- in the run so far, the join request of that address was registered, and the response is the
  -- answer to that member from the tables after it.
  pub record IsServed (node_address public_identity : Text) (log : List Event) (env : Env)
      (node : Node crates) (remote : SocketAddr) (nwid : Text) (token : Option Text)
      (c : Controller json.Value) (r : ConfigResponse) : Type 0 where
    pub controller : node.is_controller_node ≡ true
    pub member : Text
    pub announced : Dict.get node.quic.announced remote ≡ some member
    pub proven : IsProven crypto hex node_address public_identity log remote member
    pub record_of : MemberRecord json.Value
    pub registered :
        register_join_request ips hmac json node.controller node.controller_key nwid member none
          env.unix_millis env.written
        ≡ ok (record_of, c)
    pub answers : IsAnswer env c node.controller_key nwid token member r

  -- Whatever the order of the transport's critical sections so far, a response with a network's
  -- configuration goes only from a controller to a remote that has proven its address, for the join
  -- request of exactly that address. It states the id, name, routes and MTU of the network and the
  -- authorization and the addresses of the member's effective record, all from the tables after the
  -- request; it carries an issued token only for an authorized member; and an authorized member that
  -- presents a token is answered only if the token verifies.
  pub serve-IsServed :
      (node_address public_identity : Text) (log : List Event) (env : Env) (node : Node crates)
      (remote : SocketAddr) (nwid : Text) (token : Option Text) (r : ConfigResponse)
      → Reach crypto hex node_address public_identity log node.quic
      → (serve crates env node remote nwid token).1 ≡ some r
      → IsServed node_address public_identity log env node remote nwid token
          (serve crates env node remote nwid token).0
          r
  unfolding serve announced_address
  serve-IsServed node_address public_identity log env node remote nwid token r reach h =
      elim (Bool-cases node.is_controller_node) [
        | inr e ↦ absurd (ground arith)
        | inl e ↦ elim (Option-cases (Dict.get node.quic.announced remote)) [
          | inl f ↦ absurd (ground arith)
          | inr (member, f) ↦
              elim (Outcome-cases (
                register_join_request ips hmac json node.controller node.controller_key nwid member
                  none env.unix_millis env.written)) [
                    | inr (inl (x, g)) ↦ absurd (ground arith)
                    | inr (inr g) ↦ absurd (ground arith)
                    | inl ((m, c), g) ↦
                        let same : (serve crates env node remote nwid token).0 ≡ c = ground arith in
                        rw same record {
                          controller = e;
                          member = member;
                          announced = f;
                          proven =
                              announced-IsProven crypto hex node_address public_identity log
                                node.quic remote member reach f;
                          record_of = m;
                          registered = g;
                          answers =
                              answer-IsAnswer env c node.controller_key nwid token member r
                                (ground arith);
                        }
                  ]
        ]
      ]
