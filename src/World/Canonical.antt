-- ===== src/World/Canonical.antt =====
-- src/world.rs: the canonical binary format of ZeroTier, as it is written. The text of addresses and
-- of ports is read by the standard library, and the signer is an identity.
pub mod Endpoints
pub mod Layout
pub mod Signed
use zgalaxy_rs.Prelude.{
  ℕ, zero, suc, ◌+◌, ◌%◌, ◌^◌, ◌≡◌, ◌<◌, Bool, true, false, Option, none, some, List, [], ◌∷◌, ◌++◌,
  length, take, drop, get_elem?, replicate, filter_map, reverse, nat_beq, if◌then◌else◌,
}
use zgalaxy_rs.Prelude.Bytes.{Bytes, be_bytes}
use zgalaxy_rs.Prelude.Text.{Text, trim}
use zgalaxy_rs.Prelude.Outcome.{Outcome, ok, err, panic, ◌>>=◌}
use zgalaxy_rs.Net.{SocketAddr, IpAddr, v4, v6}
use zgalaxy_rs.Identity.Address.{as_bytes}
use zgalaxy_rs.Identity.Keys.{SignCrate, Identity, IdentityError, sign}
use zgalaxy_rs.Controller.IpText.{IpText}
use zgalaxy_rs.World.{World, WorldRoot, canonical_key_set_len}

-- `str::rsplit_once` with a character.
abbrev pub rsplit_once : ℕ → Text → Option (Text × Text)
rsplit_once c [] = none
rsplit_once c (x ∷ t) = elim (rsplit_once c t) [
  | some (a, b) ↦ some (x ∷ a, b)
  | none ↦ if nat_beq x c then some ([], t) else none
]

-- `str::trim_start_matches` with a character.
abbrev pub trim_start_matches : ℕ → Text → Text
trim_start_matches c [] = []
trim_start_matches c (x ∷ t) =
    let rest = trim_start_matches c t in if nat_beq x c then rest else x ∷ t

abbrev pub trim_end_matches : ℕ → Text → Text
trim_end_matches c t = reverse (trim_start_matches c (reverse t))

-- `u16::from_str`.
pub record PortText : Type 0 where
  pub parse_u16 : Text → Option ℕ
  pub parse_u16_range : (t : Text) (p : ℕ) → parse_u16 t ≡ some p → p < 2 ^ 16

-- The family, the octets and the port.
unfoldable pub inet_bytes : SocketAddr → Bytes
inet_bytes s = elim (s.ip) [
  | v4 a ↦ 0x04 ∷ (be_bytes 4 a ++ be_bytes 2 s.port)
  | v6 a ↦ 0x06 ∷ (be_bytes 16 a ++ be_bytes 2 s.port)
]

unfoldable pub canonical_key_set : Option Bytes → Bytes
canonical_key_set none = replicate canonical_key_set_len 0
canonical_key_set (some key) =
    if nat_beq (length key) 32 then key ++ replicate 32 0 else replicate canonical_key_set_len 0

-- `root_keys.get(i).and_then(|k| *k)`
abbrev pub key_at : List (Option Bytes) → ℕ → Option Bytes
key_at keys i = elim (get_elem? keys i) [ none ↦ none | some k ↦ k ]

abbrev pub concat : List Bytes → Bytes
concat [] = []
concat (bs ∷ rest) = bs ++ concat rest

module _ (ips : IpText) (ports : PortText) where
  open ips use {v4_parse, v6_parse}
  open ports use {parse_u16}

  -- The host of an endpoint, as IPv4 and then as IPv6 in brackets.
  unfoldable pub host_addr : Text → Option IpAddr
  host_addr host = elim (v4_parse host) [
    | some a ↦ some (v4 a)
    | none ↦ elim (v6_parse (trim_end_matches b']' (trim_start_matches b'[' host))) [
      | some a ↦ some (v6 a)
      | none ↦ none
    ]
  ]

  unfoldable pub endpoint_addr : Text → Option SocketAddr
  unfolding host_addr trim
  endpoint_addr ep = elim (rsplit_once b'/' (trim ep)) [
    | none ↦ none
    | some (host, port_str) ↦ elim (parse_u16 port_str) [
      | none ↦ none
      | some port ↦ elim (host_addr host) [
        | none ↦ none
        | some ip ↦ some (record { ip = ip; port = port })
      ]
    ]
  ]

  unfoldable pub encode_canonical_endpoint : Text → Option Bytes
  unfolding endpoint_addr inet_bytes
  encode_canonical_endpoint ep = elim (endpoint_addr ep) [
    | none ↦ none
    | some s ↦ some (inet_bytes s)
  ]

  unfoldable pub endpoint_is_ip : Text → Bool
  unfolding encode_canonical_endpoint
  endpoint_is_ip ep = elim (encode_canonical_endpoint ep) [ none ↦ false | some bs ↦ true ]

  -- From the root at index `i` on.
  unfoldable pub canonical_roots_from : ℕ → List WorldRoot → List (Option Bytes) → Bytes
  unfolding encode_canonical_endpoint canonical_key_set as_bytes
  canonical_roots_from i [] keys = []
  canonical_roots_from i (root ∷ roots) keys =
      let endpoints = filter_map encode_canonical_endpoint root.stable_endpoints in
      as_bytes root.identity
      ++ (0
          ∷ (canonical_key_set (key_at keys i)
              ++ ((length endpoints % 256)
                  ∷ (concat endpoints ++ canonical_roots_from (suc i) roots keys))))

  unfoldable pub encode_canonical_roots : List WorldRoot → List (Option Bytes) → Bytes
  unfolding canonical_roots_from
  encode_canonical_roots roots keys = (length roots % 256) ∷ canonical_roots_from 0 roots keys

  module _ (crypto : SignCrate) where
    open crypto use {vk_to_bytes}

    -- The body, with the keys that must sign updates and an empty dictionary.
    unfoldable pub canonical_body_of : World → Identity crypto → List (Option Bytes) → Bytes
    unfolding encode_canonical_roots canonical_key_set
    canonical_body_of w signer keys =
        w.world_type
        ∷ (be_bytes 8 w.id
            ++ (be_bytes 8 w.timestamp
                ++ (canonical_key_set (some (vk_to_bytes signer.verifying_key))
                    ++ (encode_canonical_roots w.roots keys ++ be_bytes 2 0))))

    unfoldable pub for_sign : Bytes → Bytes
    for_sign body = replicate 8 0x7f ++ (body ++ replicate 8 0xf7)

    unfoldable pub encode_canonical :
        World → Identity crypto → List (Option Bytes) → Outcome IdentityError Bytes
    unfolding canonical_body_of for_sign sign
    encode_canonical w signer keys =
        let body = canonical_body_of w signer keys in
        sign crypto signer (for_sign body) >>= (λ sig_64.
          ok (take 81 body ++ ((sig_64 ++ vk_to_bytes signer.verifying_key) ++ drop 81 body)))
