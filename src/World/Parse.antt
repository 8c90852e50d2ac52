-- ===== src/World/Parse.antt =====
-- src/world.rs, `parse_binary`: the canonical and the native format. The cursor is what is left of
-- the data behind it, and a slice of the data panics where it ends behind them.
use zgalaxy_rs.Prelude.{
  ℕ, zero, suc, Bool, true, false, ◌&&◌, Option, none, some, List, [], ◌∷◌, ◌++◌, length, take,
  drop, get_elem?, ltb, leb, nat_beq, if◌then◌else◌,
}
use zgalaxy_rs.Prelude.Bytes.{Bytes, of_be_bytes}
use zgalaxy_rs.Prelude.Text.{Text, hex_byte}
use zgalaxy_rs.Prelude.Outcome.{Outcome, ok, panic, ◌>>=◌, ◌>>◌, ensure}
use zgalaxy_rs.Prelude.Slice.{slice}
use zgalaxy_rs.Identity.Address.{Address, of_slice}
use zgalaxy_rs.World.{Utf8, World, WorldRoot}

pub data WorldError : Type 0 where
  truncated : ℕ → WorldError

-- `{:02x}` of each byte, with a colon in front of every second but the first.
abbrev pub v6_groups : Bool → Bytes → Text
v6_groups colon [] = []
v6_groups colon (b ∷ []) = hex_byte b
v6_groups colon (b ∷ c ∷ bs) =
    let rest = v6_groups true bs in
    let pair = hex_byte b ++ (hex_byte c ++ rest) in if colon then b':' ∷ pair else pair

-- `copy_from_slice` of five bytes.
abbrev pub address_at : Bytes → Outcome WorldError Address
address_at rest = elim (of_slice (take 5 rest)) [ none ↦ panic | some a ↦ ok a ]

module _ (utf8 : Utf8) (decimal : ℕ → Text) where
  open utf8 use {from_utf8_lossy}

  -- `{}.{}.{}.{}`
  abbrev pub v4_dotted : Bytes → Text
  v4_dotted [] = []
  v4_dotted (b ∷ []) = decimal b
  v4_dotted (b ∷ c ∷ bs) = decimal b ++ (b'.' ∷ v4_dotted (c ∷ bs))

  -- The address of a canonical endpoint, and how many bytes it has.
  unfoldable pub canonical_ip : ℕ → Bytes → Outcome WorldError (Option (ℕ × Text))
  unfolding hex_byte slice
  canonical_ip fam rest =
      if nat_beq fam 0x04 && leb 6 (length rest)
      then slice 4 rest >>= (λ octets. ok (some (4, v4_dotted octets)))
      else if nat_beq fam 0x06 && leb 18 (length rest)
      then slice 16 rest
        >>= (λ octets. ok (some (16, b'[' ∷ (v6_groups false octets ++ b']' ∷ []))))
      else ok none

  unfoldable pub canonical_endpoints : ℕ → Bytes → Outcome WorldError (List Text × Bytes)
  unfolding canonical_ip slice
  canonical_endpoints zero rest = ok ([], rest)
  canonical_endpoints (suc n) [] = ok ([], [])
  canonical_endpoints (suc n) (fam ∷ rest) = canonical_ip fam rest >>= (λ read. elim read [
    | none ↦ ok ([], rest)
    | some (ip_len, ip) ↦
        let left = drop ip_len rest in
        if ltb (length left) 2
        then ok ([], left)
        else slice 2 left >>= (λ port.
          canonical_endpoints n (drop 2 left)
          >>= (λ found. ok ((ip ++ (b'/' ∷ decimal (of_be_bytes port))) ∷ found.0, found.1)))
  ])

  unfoldable pub native_endpoints : ℕ → Bytes → Outcome WorldError (List Text × Bytes)
  unfolding slice
  native_endpoints zero rest = ok ([], rest)
  native_endpoints (suc n) [] = ok ([], [])
  native_endpoints (suc n) (ep_len ∷ rest) =
      let more = native_endpoints n (drop ep_len rest) in
      if ltb (length rest) ep_len
      then ok ([], rest)
      else if ltb 0 ep_len
      then slice ep_len rest
        >>= (λ ep. more >>= (λ found. ok (from_utf8_lossy ep ∷ found.0, found.1)))
      else more

  -- What follows the address of a root.
  unfoldable pub canonical_body : Bytes → Outcome WorldError (List Text × Bytes)
  unfolding canonical_endpoints
  canonical_body rest = elim (if leb 65 (length rest) then drop 65 rest else rest) [
    | [] ↦ ok ([], [])
    | num_eps ∷ left ↦ canonical_endpoints num_eps left
  ]

  unfoldable pub native_body : Bytes → Outcome WorldError (List Text × Bytes)
  unfolding native_endpoints slice
  native_body rest =
      if leb 2 (length rest)
      then slice 2 rest >>= (λ ep_count. native_endpoints (of_be_bytes ep_count) (drop 2 rest))
      else ok ([], rest)

  abbrev pub body_of : Bool → Bytes → Outcome WorldError (List Text × Bytes)
  body_of true rest = canonical_body rest
  body_of false rest = native_body rest

  unfoldable pub parse_roots : Bool → ℕ → Bytes → Outcome WorldError (List WorldRoot × Bytes)
  unfolding canonical_body native_body of_slice
  parse_roots canonical zero rest = ok ([], rest)
  parse_roots canonical (suc n) rest =
      if ltb (length rest) 5
      then ok ([], rest)
      else address_at rest >>= (λ a. body_of canonical (drop 5 rest) >>= (λ body.
        parse_roots canonical n body.1
        >>= (λ found. ok (record { identity = a; stable_endpoints = body.0 } ∷ found.0, found.1))))

  unfoldable pub is_canonical_zt : Bytes → Bool
  is_canonical_zt bytes = elim (get_elem? bytes 177) [ none ↦ false | some n ↦ leb n 16 ]

  -- `data[i]`
  abbrev pub byte_at : Bytes → ℕ → Outcome WorldError ℕ
  byte_at bytes i = elim (get_elem? bytes i) [ none ↦ panic | some b ↦ ok b ]

  -- The number of roots, what follows it, and the signature of the canonical format.
  unfoldable pub layout : Bytes → Outcome WorldError (ℕ × Bytes × Bytes)
  unfolding is_canonical_zt slice
  layout bytes =
      if is_canonical_zt bytes
      then slice 96 (drop 81 bytes)
        >>= (λ sig. byte_at bytes 177 >>= (λ n. ok (n, drop 178 bytes, sig)))
      else if leb 19 (length bytes)
      then slice 2 (drop 17 bytes) >>= (λ count. ok (of_be_bytes count, drop 19 bytes, []))
      else byte_at bytes 17 >>= (λ n. ok (n, drop 18 bytes, []))

  -- The signature behind the roots of the native format.
  unfoldable pub trailing_signature : Bytes → Outcome WorldError Bytes
  unfolding slice
  trailing_signature rest =
      if leb 4 (length rest)
      then slice 4 rest >>= (λ len.
        if ltb 0 (of_be_bytes len) && leb (of_be_bytes len) (length (drop 4 rest))
        then slice (of_be_bytes len) (drop 4 rest)
        else ok [])
      else ok []

  unfoldable pub parse_binary : Bytes → Outcome WorldError World
  unfolding layout parse_roots trailing_signature slice
  parse_binary bytes = do
    ensure (leb 18 (length bytes)) (truncated (length bytes))
    world_type ← byte_at bytes 0
    id ← slice 8 (drop 1 bytes)
    timestamp ← slice 8 (drop 9 bytes)
    (count, rest, signature) ← layout bytes
    (roots, left) ← parse_roots (is_canonical_zt bytes) count rest
    final_signature ← if is_canonical_zt bytes then ok signature else trailing_signature left
    ok (record {
      world_type = world_type;
      id = of_be_bytes id;
      timestamp = of_be_bytes timestamp;
      roots = roots;
      signature = final_signature;
    })
