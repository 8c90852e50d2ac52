-- ===== src/World/Canonical/Endpoints.antt =====
-- The endpoints and the roots of the canonical format are read back.
use zgalaxy_rs.Prelude.{
  ℕ, zero, suc, ◌%◌, ◌/◌, ◌^◌, ltb, ◌≡◌, ◌<◌, ◌∙◌, refl, ap, sym, true, false, Option, none, some,
  List, [], ◌∷◌, ◌++◌, length, All, map, filter_map, replicate, arith, leb, take-exact, drop-exact,
  length-append, le→leb, Option-cases, inl, inr,
}
use mathlib.Core.List.{append_assoc}
use zgalaxy_rs.Prelude.Bytes.{Bytes, be_bytes, of_be_bytes-be_bytes, length-be_bytes}
use zgalaxy_rs.Prelude.Text.{Text, trim, hex_byte}
use zgalaxy_rs.Prelude.Outcome.{Outcome, ok, ◌>>=◌}
use zgalaxy_rs.Prelude.Slice.{slice-exact}
use zgalaxy_rs.Net.{SocketAddr, IpAddr, v4, v6}
use zgalaxy_rs.Identity.Address.{as_bytes, of_slice}
use zgalaxy_rs.Controller.IpText.{IpText}
use zgalaxy_rs.World.{Utf8, WorldRoot}
use zgalaxy_rs.World.Parse.{
  WorldError, canonical_ip, canonical_endpoints, canonical_body, parse_roots,
}
use zgalaxy_rs.World.Canonical.{
  PortText, rsplit_once, inet_bytes, canonical_key_set, key_at, concat, host_addr, endpoint_addr,
  encode_canonical_endpoint, canonical_roots_from,
}

length-replicate : (n b : ℕ) → length (replicate n b) ≡ n
length-replicate zero b = refl
length-replicate (suc n) b = ap suc (length-replicate n b)

pub length-canonical_key_set : (k : Option Bytes) → length (canonical_key_set k) ≡ 64
unfolding canonical_key_set
length-canonical_key_set none = refl
length-canonical_key_set (some key) =
    ground (arith, length-append key (replicate 32 0), length-replicate 32 0)

-- The octet of a number that has `i` octets below it.
abbrev octet : ℕ → ℕ → ℕ
octet zero a = a % 256
octet (suc i) a = octet i (a / 256)

-- The 16 bits of a number with `i` octets below them, in four hexadecimal digits.
abbrev group : ℕ → ℕ → Text
group i a = hex_byte (octet (suc i) a) ++ hex_byte (octet i a)

-- The eight groups of an IPv6 address, with colons between them, in brackets.
unfoldable pub bracketed : ℕ → Text
unfolding hex_byte
bracketed a =
    b'['
    ∷ (group 14 a
        ++ (b':'
            ∷ (group 12 a
                ++ (b':'
                    ∷ (group 10 a
                        ++ (b':'
                            ∷ (group 8 a
                                ++ (b':'
                                    ∷ (group 6 a
                                        ++ (b':'
                                            ∷ (group 4 a
                                                ++ (b':'
                                                    ∷ (group 2 a
                                                        ++ (b':'
                                                            ∷ (group 0 a ++ b']' ∷ [])))))))))))))))

module _ (utf8 : Utf8) (decimal : ℕ → Text) where
  -- The four octets of an IPv4 address in decimal, with dots between them.
  unfoldable pub dotted : ℕ → Text
  dotted a =
      decimal (octet 3 a)
      ++ (b'.'
          ∷ (decimal (octet 2 a) ++ (b'.' ∷ (decimal (octet 1 a) ++ (b'.' ∷ decimal (octet 0 a))))))

  -- The text that an endpoint is read as: the host, a slash, and the port in decimal.
  unfoldable pub ip_part : IpAddr → Text
  unfolding dotted bracketed
  ip_part (v4 a) = dotted a
  ip_part (v6 a) = bracketed a

  unfoldable pub endpoint_text : SocketAddr → Text
  unfolding ip_part
  endpoint_text s = ip_part s.ip ++ (b'/' ∷ decimal s.port)

  -- An endpoint in front of those that are read.
  abbrev with_endpoint :
      Text → Outcome WorldError (List Text × Bytes) → Outcome WorldError (List Text × Bytes)
  with_endpoint ep more = more >>= (λ found. ok (ep ∷ found.0, found.1))

  -- One pass of the loop, on octets and a port.
  pass_lem :
      (fam k port n : ℕ) (ip : Text) (octets rest : Bytes)
      → length octets ≡ k
      → port < 2 ^ 16
      → canonical_ip utf8 decimal fam (octets ++ (be_bytes 2 port ++ rest)) ≡ ok (some (k, ip))
      → canonical_endpoints utf8 decimal (suc n) (fam ∷ (octets ++ (be_bytes 2 port ++ rest)))
        ≡ with_endpoint (ip ++ (b'/' ∷ decimal port)) (canonical_endpoints utf8 decimal n rest)
  unfolding canonical_endpoints
  pass_lem fam k port n ip octets rest size small e =
      let two : length (be_bytes 2 port) ≡ 2 = length-be_bytes 2 port in
      let enough : ltb (length (be_bytes 2 port ++ rest)) 2 ≡ false =
        ground (arith, length-append (be_bytes 2 port) rest, two) in
      rw
        (
          canonical_endpoints,
          e,
          drop-exact k octets (be_bytes 2 port ++ rest) size,
          enough,
          take-exact 2 (be_bytes 2 port) rest two,
          drop-exact 2 (be_bytes 2 port) rest two,
          of_be_bytes-be_bytes 2 port small,
        )
        refl

  ip_lem :
      (ip : IpAddr) (port n : ℕ) (rest : Bytes)
      → port < 2 ^ 16
      → canonical_endpoints utf8 decimal
          (suc n)
          (inet_bytes (record { ip = ip; port = port }) ++ rest)
        ≡ with_endpoint
            (endpoint_text (record { ip = ip; port = port }))
            (canonical_endpoints utf8 decimal n rest)
  unfolding inet_bytes endpoint_text canonical_ip ip_part dotted bracketed be_bytes
  ip_lem (v4 a) port n rest h =
      let octets : Bytes = be_bytes 4 a in
      let four : length octets ≡ 4 = length-be_bytes 4 a in
      let tail : Bytes = be_bytes 2 port ++ rest in
      ap (λ t. canonical_endpoints utf8 decimal (suc n) (0x04 ∷ t))
        (append_assoc octets (be_bytes 2 port) rest)
      ∙ pass_lem 0x04 4 port n (ip_part (v4 a)) octets rest four h (
          rw (slice-exact 4 octets tail four) (
            ground (
              arith,
              four,
              length-append octets tail,
              length-append (be_bytes 2 port) rest,
              length-be_bytes 2 port,
            )))
  ip_lem (v6 a) port n rest h =
      let octets : Bytes = be_bytes 16 a in
      let sixteen : length octets ≡ 16 = length-be_bytes 16 a in
      let tail : Bytes = be_bytes 2 port ++ rest in
      ap (λ t. canonical_endpoints utf8 decimal (suc n) (0x06 ∷ t))
        (append_assoc octets (be_bytes 2 port) rest)
      ∙ pass_lem 0x06 16 port n (ip_part (v6 a)) octets rest sixteen h (
          rw (slice-exact 16 octets tail sixteen) (
            ground (
              arith,
              sixteen,
              length-append octets tail,
              length-append (be_bytes 2 port) rest,
              length-be_bytes 2 port,
            )))

  module _ (ips : IpText) (ports : PortText) where
    endpoint_addr-port :
        (ep : Text) (s : SocketAddr) → endpoint_addr ips ports ep ≡ some s → s.port < 2 ^ 16
    unfolding endpoint_addr
    endpoint_addr-port ep s h = elim (Option-cases (rsplit_once b'/' (trim ep))) [
      | inl e ↦ absurd (ground arith)
      | inr ((host, port_str), e) ↦ elim (Option-cases (ports.parse_u16 port_str)) [
        | inl f ↦ absurd (ground arith)
        | inr (port, f) ↦ elim (Option-cases (host_addr ips ports host)) [
          | inl g ↦ absurd (ground arith)
          | inr (ip, g) ↦
              let small : port < 2 ^ 16 = ports.parse_u16_range port_str port f in
              let same : port ≡ s.port = ground arith in omega (arith, small, same)
        ]
      ]
    ]

    abbrev pub encoded : List Text → List Bytes
    encoded eps = filter_map (encode_canonical_endpoint ips ports) eps

    abbrev pub addrs : List Text → List SocketAddr
    addrs eps = filter_map (endpoint_addr ips ports) eps

    encoded-none :
        (ep : Text) (eps : List Text)
        → endpoint_addr ips ports ep ≡ none
        → (encoded (ep ∷ eps) ≡ encoded eps) × (addrs (ep ∷ eps) ≡ addrs eps)
    unfolding encode_canonical_endpoint
    encoded-none ep eps e = ground arith

    encoded-some :
        (ep : Text) (eps : List Text) (s : SocketAddr)
        → endpoint_addr ips ports ep ≡ some s
        → (encoded (ep ∷ eps) ≡ inet_bytes s ∷ encoded eps) × (addrs (ep ∷ eps) ≡ s ∷ addrs eps)
    unfolding encode_canonical_endpoint
    encoded-some ep eps s e = ground arith

    endpoints_lem :
        (eps : List Text) (rest : Bytes)
        → canonical_endpoints utf8 decimal (length (encoded eps)) (concat (encoded eps) ++ rest)
          ≡ ok (map endpoint_text (addrs eps), rest)
    unfolding encode_canonical_endpoint canonical_endpoints
    endpoints_lem [] rest = refl
    endpoints_lem (ep ∷ eps) rest = elim (Option-cases (endpoint_addr ips ports ep)) [
      | inl e ↦
          let (same, skipped) = encoded-none ep eps e in
          ap (λ xs. canonical_endpoints utf8 decimal (length xs) (concat xs ++ rest)) same
          ∙ endpoints_lem eps rest
          ∙ ap (λ ys. ok (map endpoint_text ys, rest)) (sym skipped)
      | inr (s, e) ↦
          let (same, kept) = encoded-some ep eps s e in
          let tail : Bytes = concat (encoded eps) ++ rest in
          ap (λ xs. canonical_endpoints utf8 decimal (length xs) (concat xs ++ rest)) same
          ∙ ap (canonical_endpoints utf8 decimal (suc (length (encoded eps))))
              (append_assoc (inet_bytes s) (concat (encoded eps)) rest)
          ∙ ip_lem s.ip s.port (length (encoded eps)) tail (endpoint_addr-port ep s e)
          ∙ ap (with_endpoint (endpoint_text s)) (endpoints_lem eps rest)
          ∙ ap (λ ys. ok (map endpoint_text ys, rest)) (sym kept)
    ]

    -- The bytes of a root behind its address, with what follows.
    root_tail : WorldRoot → Option Bytes → Bytes → Bytes
    root_tail r k rest =
        0
        ∷ (canonical_key_set k
            ++ ((length (encoded r.stable_endpoints) % 256)
                ∷ (concat (encoded r.stable_endpoints) ++ rest)))

    -- The root as it is read back: its endpoints are those that have a literal address.
    unfoldable pub read_root : WorldRoot → WorldRoot
    unfolding endpoint_text endpoint_addr
    read_root r = record r { stable_endpoints = map endpoint_text (addrs r.stable_endpoints) }

    body_lem :
        (r : WorldRoot) (k : Option Bytes) (rest : Bytes)
        → length (encoded r.stable_endpoints) < 256
        → canonical_body utf8 decimal (root_tail r k rest)
          ≡ ok (map endpoint_text (addrs r.stable_endpoints), rest)
    unfolding canonical_body root_tail
    body_lem r k rest h =
        let count : ℕ = length (encoded r.stable_endpoints) in
        let tail : Bytes = (count % 256) ∷ (concat (encoded r.stable_endpoints) ++ rest) in
        let keys : Bytes = canonical_key_set k in
        let size : length keys ≡ 64 = length-canonical_key_set k in
        let long : leb 65 (suc (length (keys ++ tail))) ≡ true =
          le→leb 65 (suc (length (keys ++ tail))) (omega (arith, length-append keys tail, size)) in
        let small : count % 256 ≡ count = omega (arith, h) in
        rw (canonical_body, root_tail, long, drop-exact 64 keys tail size, small)
          (endpoints_lem r.stable_endpoints rest)

    parse_root :
        (r : WorldRoot) (k : Option Bytes) (n : ℕ) (rest left : Bytes) (rs : List WorldRoot)
        → length (encoded r.stable_endpoints) < 256
        → parse_roots utf8 decimal true n rest ≡ ok (rs, left)
        → parse_roots utf8 decimal true (suc n) (as_bytes r.identity ++ root_tail r k rest)
          ≡ ok (read_root r ∷ rs, left)
    unfolding parse_roots as_bytes of_slice read_root
    parse_root r k n rest left rs h e = ground (arith, body_lem r k rest h, e)

    -- A count of endpoints that fits its byte.
    abbrev pub Fits : WorldRoot → Type 0
    Fits r = length (encoded r.stable_endpoints) < 256

    roots_step :
        (i : ℕ) (r : WorldRoot) (rs : List WorldRoot) (keys : List (Option Bytes)) (rest : Bytes)
        → canonical_roots_from ips ports i (r ∷ rs) keys ++ rest
          ≡ as_bytes r.identity
            ++ root_tail r (key_at keys i) (canonical_roots_from ips ports (suc i) rs keys ++ rest)
    unfolding canonical_roots_from root_tail
    roots_step i r rs keys rest =
        let keyset : Bytes = canonical_key_set (key_at keys i) in
        let eps : Bytes = concat (encoded r.stable_endpoints) in
        let count : ℕ = length (encoded r.stable_endpoints) % 256 in
        let more : Bytes = canonical_roots_from ips ports (suc i) rs keys in
        append_assoc (as_bytes r.identity) (0 ∷ (keyset ++ (count ∷ (eps ++ more)))) rest
        ∙ ap (λ t. as_bytes r.identity ++ (0 ∷ t))
            (append_assoc keyset (count ∷ (eps ++ more)) rest
              ∙ ap (λ t. keyset ++ (count ∷ t)) (append_assoc eps more rest))

    pub roots_lem :
        (i : ℕ) (rs : List WorldRoot) (keys : List (Option Bytes)) (rest : Bytes)
        → All Fits rs
        → parse_roots utf8 decimal true
            (length rs)
            (canonical_roots_from ips ports i rs keys ++ rest)
          ≡ ok (map read_root rs, rest)
    unfolding canonical_roots_from parse_roots
    roots_lem i [] keys rest h = refl
    roots_lem i (r ∷ rs) keys rest h =
        ap (parse_roots utf8 decimal true (suc (length rs))) (roots_step i r rs keys rest)
        ∙ parse_root r (key_at keys i) (length rs)
            (canonical_roots_from ips ports (suc i) rs keys ++ rest) rest (map read_root rs) h.0
            (roots_lem (suc i) rs keys rest h.1)
