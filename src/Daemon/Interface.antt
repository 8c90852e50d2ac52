-- ===== src/Daemon/Interface.antt =====
-- What the actions of a response leave on the interface.
use zgalaxy_rs.Prelude.{
  ◌≡◌, ◌∙◌, ap, refl, false, Bool, ◌&&◌, ◌||◌, not, List, [], ◌∷◌, ◌++◌, All, map, arith, contains,
  retain, list_eq, nat_eq, nat_beq, list_beq_iff, if◌then◌else◌, Bool-cases, inl, inr, ◌==◌,
}
use zgalaxy_rs.Prelude.Text.{Text, contains_char}
use zgalaxy_rs.Network.Types.{Network, ManagedRoute}
use zgalaxy_rs.Daemon.Config.{
  Action, set_mtu, remove_interface_ip, assign_address, remove_route, add_route, is_ok, cidr_of,
  mtu_actions, ip_actions, route_actions,
}

-- The address in front of the prefix length.
abbrev pub host : Text → Text
host [] = []
host (c ∷ t) = let rest = host t in if nat_beq c b'/' then [] else c ∷ rest

-- The addresses of the interface, after the actions.
unfoldable pub addresses : List Action → List Text → List Text
addresses [] s = s
addresses (remove_interface_ip ip ∷ acts) s = addresses acts (retain (λ x. not (x == ip)) s)
addresses (assign_address cidr mac ∷ acts) s = addresses acts (host cidr ∷ s)
addresses (set_mtu m ∷ acts) s = addresses acts s
addresses (remove_route t ∷ acts) s = addresses acts s
addresses (add_route t ∷ acts) s = addresses acts s

-- The routes of the interface, after the actions.
unfoldable pub routes : List Action → List Text → List Text
routes [] s = s
routes (remove_route t ∷ acts) s = routes acts (retain (λ x. not (x == t)) s)
routes (add_route t ∷ acts) s = routes acts (t ∷ s)
routes (set_mtu m ∷ acts) s = routes acts s
routes (remove_interface_ip ip ∷ acts) s = routes acts s
routes (assign_address cidr mac ∷ acts) s = routes acts s

pub contains-retain :
    (p : Text → Bool) (xs : List Text) (a : Text)
    → contains (retain p xs) a ≡ (contains xs a && p a)
contains-retain p [] a = refl
contains-retain p (x ∷ xs) a = elim (Bool-cases (x == a)) [
  | inl e ↦
      let same : p x ≡ p a = ap p ((list_beq_iff x a).0 e) in ground (arith, contains-retain p xs a)
  | inr e ↦ ground (arith, contains-retain p xs a)
]

pub addresses-append :
    (acts bs : List Action) (s : List Text)
    → addresses (acts ++ bs) s ≡ addresses bs (addresses acts s)
unfolding addresses
addresses-append [] bs s = refl
addresses-append (remove_interface_ip ip ∷ acts) bs s = addresses-append acts bs _
addresses-append (assign_address cidr mac ∷ acts) bs s = addresses-append acts bs _
addresses-append (set_mtu m ∷ acts) bs s = addresses-append acts bs s
addresses-append (remove_route t ∷ acts) bs s = addresses-append acts bs s
addresses-append (add_route t ∷ acts) bs s = addresses-append acts bs s

pub addresses-removed :
    (xs s : List Text) (ip : Text)
    → contains (addresses (map remove_interface_ip xs) s) ip
      ≡ (contains s ip && not (contains xs ip))
unfolding addresses
addresses-removed [] s ip = ground arith
addresses-removed (x ∷ xs) s ip = ground (
  arith,
  addresses-removed xs (retain (λ y. not (y == x)) s) ip,
  contains-retain (λ y. not (y == x)) s ip,
  list_beq_iff x ip,
  list_beq_iff ip x,
)

host-cidr : (t rest : Text) → contains_char t b'/' ≡ false → host (t ++ b'/' ∷ rest) ≡ t
host-cidr [] rest h = refl
host-cidr (c ∷ t) rest h = ground (arith, host-cidr t rest)

cidr_of-host :
    (rs : List ManagedRoute) (ip : Text) → contains_char ip b'/' ≡ false → host (cidr_of rs ip) ≡ ip
unfolding cidr_of
cidr_of-host rs ip h = rw (cidr_of, h) (host-cidr ip _ h)

-- Addresses without a prefix length of their own.
abbrev pub Plain : List Text → Type 0
Plain = All (λ ip. contains_char ip b'/' ≡ false)

addresses-assigned :
    (rs : List ManagedRoute) (mac : Text) (xs s : List Text) (ip : Text)
    → Plain xs
    → contains (addresses (map (λ x. assign_address (cidr_of rs x) mac) xs) s) ip
      ≡ (contains s ip || contains xs ip)
unfolding addresses
addresses-assigned rs mac [] s ip h = ground arith
addresses-assigned rs mac (x ∷ xs) s ip h =
    let same : host (cidr_of rs x) ≡ x = cidr_of-host rs x h.0 in
    addresses-assigned rs mac xs (host (cidr_of rs x) ∷ s) ip h.1
    ∙ ap (λ y. contains (y ∷ s) ip || contains xs ip) same
    ∙ ground arith

pub routes-append :
    (acts bs : List Action) (s : List Text) → routes (acts ++ bs) s ≡ routes bs (routes acts s)
unfolding routes
routes-append [] bs s = refl
routes-append (remove_interface_ip ip ∷ acts) bs s = routes-append acts bs s
routes-append (assign_address cidr mac ∷ acts) bs s = routes-append acts bs s
routes-append (set_mtu m ∷ acts) bs s = routes-append acts bs s
routes-append (remove_route t ∷ acts) bs s = routes-append acts bs _
routes-append (add_route t ∷ acts) bs s = routes-append acts bs _

pub routes-removed :
    (xs s : List Text) (t : Text)
    → contains (routes (map remove_route xs) s) t ≡ (contains s t && not (contains xs t))
unfolding routes
routes-removed [] s t = ground arith
routes-removed (x ∷ xs) s t = ground (
  arith,
  routes-removed xs (retain (λ y. not (y == x)) s) t,
  contains-retain (λ y. not (y == x)) s t,
  list_beq_iff x t,
  list_beq_iff t x,
)

pub routes-added :
    (xs s : List Text) (t : Text)
    → contains (routes (map add_route xs) s) t ≡ (contains s t || contains xs t)
unfolding routes
routes-added [] s t = ground arith
routes-added (x ∷ xs) s t = ground (arith, routes-added xs (x ∷ s) t)

pub addresses-mtu : (old net : Network) (s : List Text) → addresses (mtu_actions old net) s ≡ s
unfolding addresses mtu_actions
addresses-mtu old net s = ground arith

pub routes-mtu : (old net : Network) (s : List Text) → routes (mtu_actions old net) s ≡ s
unfolding routes mtu_actions
routes-mtu old net s = ground arith

pub addresses-remove_route : (xs s : List Text) → addresses (map remove_route xs) s ≡ s
unfolding addresses
addresses-remove_route [] s = refl
addresses-remove_route (x ∷ xs) s = addresses-remove_route xs s

addresses-add_route : (xs s : List Text) → addresses (map add_route xs) s ≡ s
unfolding addresses
addresses-add_route [] s = refl
addresses-add_route (x ∷ xs) s = addresses-add_route xs s

pub addresses-routes : (old net : Network) (s : List Text) → addresses (route_actions old net) s ≡ s
unfolding route_actions
addresses-routes old net s =
    addresses-append (map remove_route _) (map add_route _) s
    ∙ addresses-add_route _ (addresses (map remove_route _) s)
    ∙ addresses-remove_route _ s

pub routes-remove_ip : (xs s : List Text) → routes (map remove_interface_ip xs) s ≡ s
unfolding routes
routes-remove_ip [] s = refl
routes-remove_ip (x ∷ xs) s = routes-remove_ip xs s

routes-assign :
    (rs : List ManagedRoute) (mac : Text) (xs s : List Text)
    → routes (map (λ x. assign_address (cidr_of rs x) mac) xs) s ≡ s
unfolding routes
routes-assign rs mac [] s = refl
routes-assign rs mac (x ∷ xs) s = routes-assign rs mac xs s

pub routes-ips : (old net : Network) (s : List Text) → routes (ip_actions old net) s ≡ s
unfolding ip_actions
routes-ips old net s =
    routes-append (map remove_interface_ip _)
      (map (λ x. assign_address (cidr_of net.routes x) net.mac) _) s
    ∙ routes-assign net.routes net.mac _ (routes (map remove_interface_ip _) s)
    ∙ routes-remove_ip _ s

Plain-retain : (p : Text → Bool) (xs : List Text) → Plain xs → Plain (retain p xs)
Plain-retain p [] h = tt
Plain-retain p (x ∷ xs) h = ground (arith, Plain-retain p xs h.1)

pub addresses-ips :
    (old net : Network) (s : List Text) (ip : Text)
    → Plain net.assigned_addresses
    → contains (addresses (ip_actions old net) s) ip ≡ (
        contains s ip
          && not (contains old.assigned_addresses ip && not (contains net.assigned_addresses ip))
        || contains net.assigned_addresses ip
          && (not (contains old.assigned_addresses ip) || not (is_ok old.status)))
unfolding ip_actions
addresses-ips old net s ip h =
    let gone : List Text =
      retain (λ x. not (contains net.assigned_addresses x)) old.assigned_addresses in
    let fresh : List Text =
      retain (λ x. not (contains old.assigned_addresses x) || not (is_ok old.status))
        net.assigned_addresses in
    ap (λ xs. contains xs ip)
      (addresses-append (map remove_interface_ip gone)
        (map (λ x. assign_address (cidr_of net.routes x) net.mac) fresh) s)
    ∙ addresses-assigned net.routes net.mac fresh (addresses (map remove_interface_ip gone) s) ip
        (Plain-retain _ net.assigned_addresses h)
    ∙ ground (
      arith,
      addresses-removed gone s ip,
      contains-retain (λ x. not (contains net.assigned_addresses x)) old.assigned_addresses ip,
      contains-retain (λ x. not (contains old.assigned_addresses x) || not (is_ok old.status))
          net.assigned_addresses ip,
    )
