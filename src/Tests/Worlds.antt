-- ===== src/Tests/Worlds.antt =====
-- A world file.
use zgalaxy_rs.Prelude.{
  ℕ, false, ◌≡◌, ◌<◌, ◌^◌, ◌++◌, ltb, All, Option, none, some, if◌then◌else◌, refl, [], ◌∷◌, arith,
  replicate,
}
use zgalaxy_rs.Prelude.Bytes.{Bytes, be_bytes, of_be_bytes}
use zgalaxy_rs.Prelude.Text.{Text, codes, trim, trim_start}
use zgalaxy_rs.Prelude.Outcome.{ok}
use zgalaxy_rs.Identity.Address.{as_bytes}
use zgalaxy_rs.World.{Utf8, World, encode, encode_roots, encode_endpoints}
use zgalaxy_rs.World.Parse.{is_canonical_zt, parse_binary}
use zgalaxy_rs.World.Canonical.{
  PortText, encode_canonical_endpoint, endpoint_addr, host_addr, encode_canonical, for_sign,
  canonical_body_of,
}
use zgalaxy_rs.World.Canonical.Endpoints.{Fits}
use zgalaxy_rs.World.Canonical.Signed.{IsCanonical, read_world, parse_binary-encode_canonical}
use zgalaxy_rs.Identity.Keys.{sign}
use zgalaxy_rs.Tests.Crates.{ip_text}
use zgalaxy_rs.Tests.Nodes.{crypto, identity, key}
use zgalaxy_rs.World.RoundTrip.{parse_binary-encode}
use zgalaxy_rs.World.Bounds.{IsParsed, parse_binary-IsParsed}

abbrev utf8 : Utf8
utf8 = record { bytes_of = λ t. t; from_utf8_lossy = λ bs. bs; lossy-bytes_of = λ t. refl }

abbrev decimal : ℕ → Text
decimal n = n ∷ []

abbrev moon : World
moon = record {
  world_type = 127;
  id = 0xdeadbeef;
  timestamp = 1700000000000;
  roots =
      record {
        identity = record { b0 = 1; b1 = 2; b2 = 3; b3 = 4; b4 = 5 };
        stable_endpoints = codes "1.2.3.4/9993" ∷ [];
      }
      ∷ [];
  signature = 7 ∷ 8 ∷ [];
}

native : is_canonical_zt utf8 decimal (encode utf8 moon) ≡ false
unfolding is_canonical_zt encode encode_roots encode_endpoints as_bytes be_bytes
native = refl

parse_binary-encode_example : parse_binary utf8 decimal (encode utf8 moon) ≡ ok moon
parse_binary-encode_example =
    parse_binary-encode utf8 decimal moon
      (record {
        id = omega arith;
        timestamp = omega arith;
        count = omega arith;
        roots = ((omega arith, ((omega arith, omega arith), tt)), tt);
        size = omega arith;
      })
      native

parse_binary-IsParsed_example : (w : World) × IsParsed utf8 decimal (replicate 20 0xff) w
parse_binary-IsParsed_example = parse_binary-IsParsed utf8 decimal (replicate 20 0xff) (omega arith)

-- A port is one character.
abbrev parse_u16 : Text → Option ℕ
parse_u16 (b ∷ []) = if ltb b (2 ^ 16) then some b else none
parse_u16 _ = none

parse_u16_range : (t : Text) (p : ℕ) → parse_u16 t ≡ some p → p < 2 ^ 16
parse_u16_range [] p h = absurd (ground arith)
parse_u16_range (b ∷ []) p h = ground arith
parse_u16_range (b ∷ c ∷ t) p h = absurd (ground arith)

ports : PortText
ports = record { parse_u16 = parse_u16; parse_u16_range = parse_u16_range }

-- An endpoint with a literal address, and one with a name.
abbrev planet : World
planet = record {
  world_type = 1;
  id = 149604618;
  timestamp = 1700000000000;
  roots =
      record {
        identity = record { b0 = 1; b1 = 2; b2 = 3; b3 = 4; b4 = 5 };
        stable_endpoints = codes "0a000001/9" ∷ codes "root.example/9" ∷ [];
      }
      ∷ [];
  signature = [];
}

fits : All (Fits utf8 decimal ip_text ports) planet.roots
unfolding encode_canonical_endpoint endpoint_addr host_addr trim trim_start ports of_be_bytes
fits = (omega arith, tt)

canonical : IsCanonical utf8 decimal ip_text ports crypto planet identity
canonical = record {
  id = omega arith;
  timestamp = omega arith;
  count = omega arith;
  roots = fits;
  key = refl;
  signature = λ s. refl;
}

out : Bytes
unfolding encode_canonical sign
out = elim (encode_canonical ip_text ports crypto planet identity []) [ ok bs ↦ bs | _ ↦ [] ]

written : encode_canonical ip_text ports crypto planet identity [] ≡ ok out
unfolding encode_canonical sign out
written = refl

parse_binary-encode_canonical_example :
    (sig : Bytes) × (sign crypto identity
        (for_sign ip_text ports crypto (canonical_body_of ip_text ports crypto planet identity []))
      ≡ ok sig)
    × (parse_binary utf8 decimal out
        ≡ ok (read_world utf8 decimal ip_text ports crypto planet (sig ++ key)))
parse_binary-encode_canonical_example =
    parse_binary-encode_canonical utf8 decimal ip_text ports crypto planet identity [] out canonical
      written
