-- ===== src/World/Bounds.antt =====
-- Reading a world never panics, and what is read is bounded by the data, whatever the data say.
use zgalaxy_rs.Prelude.{
  ℕ, zero, suc, ◌+◌, ◌*◌, ◌≡◌, ◌≤◌, ◌<◌, ◌&&◌, ◌++◌, nat_beq, refl, ap, Bool, true, false, Option,
  none, some, List, [], ◌∷◌, length, take, drop, get_elem?, arith, ltb, leb, if◌then◌else◌,
  length-take, length-drop, leb→le, Option-cases, Bool-cases, inl, inr,
}
use zgalaxy_rs.Prelude.Bytes.{Bytes, of_be_bytes}
use zgalaxy_rs.Prelude.Text.{Text}
use zgalaxy_rs.Prelude.Outcome.{Outcome, ok}
use zgalaxy_rs.Prelude.Slice.{slice-ok}
use zgalaxy_rs.Identity.Address.{Address, of_slice}
use zgalaxy_rs.World.{Utf8, World, WorldRoot}
use zgalaxy_rs.World.Parse.{
  WorldError, address_at, body_of, v4_dotted, v6_groups, canonical_ip, canonical_endpoints,
  native_endpoints, native_body, canonical_body, parse_roots, is_canonical_zt, layout,
  trailing_signature, parse_binary, byte_at,
}

address_at-ok : (bs : Bytes) → 5 ≤ length bs → (a : Address) × (address_at bs ≡ ok a)
unfolding of_slice
address_at-ok [] h = absurd (omega (arith, h))
address_at-ok (a ∷ []) h = absurd (omega (arith, h))
address_at-ok (a ∷ b ∷ []) h = absurd (omega (arith, h))
address_at-ok (a ∷ b ∷ c ∷ []) h = absurd (omega (arith, h))
address_at-ok (a ∷ b ∷ c ∷ d ∷ []) h = absurd (omega (arith, h))
address_at-ok (a ∷ b ∷ c ∷ d ∷ e ∷ bs) h = (_, refl)

get_elem?-some : (xs : Bytes) (i : ℕ) → i < length xs → (b : ℕ) × (get_elem? xs i ≡ some b)
get_elem?-some [] i h = absurd (omega (arith, h))
get_elem?-some (x ∷ xs) zero h = (x, refl)
get_elem?-some (x ∷ xs) (suc i) h = get_elem?-some xs i (omega (arith, h))

length-if :
    (b : Bool) (xs ys : Bytes) (m : ℕ)
    → length xs ≤ m
    → length ys ≤ m
    → length (if b then xs else ys) ≤ m
length-if true xs ys m h k = h
length-if false xs ys m h k = k

skipped_lem :
    (rest : Bytes) → length (if leb 65 (length rest) then drop 65 rest else rest) ≤ length rest
skipped_lem rest =
    length-if (leb 65 (length rest)) (drop 65 rest) rest (length rest)
      (omega (arith, length-drop 65 rest)) (omega arith)

get_elem?-lt : (xs : Bytes) (i b : ℕ) → get_elem? xs i ≡ some b → i < length xs
get_elem?-lt [] i b h = absurd (ground arith)
get_elem?-lt (x ∷ xs) zero b h = omega arith
get_elem?-lt (x ∷ xs) (suc i) b h = omega (arith, get_elem?-lt xs i b h)

module _ (utf8 : Utf8) (decimal : ℕ → Text) where
  -- Endpoints are read, and what is left is no longer than what was there.
  abbrev IsShort : Outcome WorldError (List Text × Bytes) → Bytes → Type 0
  IsShort o rest =
      (eps : List Text) × (left : Bytes) × (o ≡ ok (eps, left)) × (length left ≤ length rest)

  canonical_ip-total :
      (fam : ℕ) (rest : Bytes)
      → (found : Option (ℕ × Text)) × (canonical_ip utf8 decimal fam rest ≡ ok found)
  unfolding canonical_ip
  canonical_ip-total fam rest = elim (Bool-cases (nat_beq fam 0x04 && leb 6 (length rest))) [
    | inl e ↦ (
      some (4, v4_dotted utf8 decimal (take 4 rest)),
      rw (canonical_ip, e, slice-ok 4 rest (ground arith)) refl,
    )
    | inr e ↦ elim (Bool-cases (nat_beq fam 0x06 && leb 18 (length rest))) [
      | inl f ↦ (
        some (16, b'[' ∷ (v6_groups false (take 16 rest) ++ b']' ∷ [])),
        rw (canonical_ip, e, f, slice-ok 16 rest (ground arith)) refl,
      )
      | inr f ↦ (none, rw (canonical_ip, e, f) refl)
    ]
  ]

  canonical_endpoints-IsShort :
      (n : ℕ) (rest : Bytes) → IsShort (canonical_endpoints utf8 decimal n rest) rest
  unfolding canonical_endpoints
  canonical_endpoints-IsShort zero rest = ([], rest, refl, omega arith)
  canonical_endpoints-IsShort (suc n) [] = ([], [], refl, omega arith)
  canonical_endpoints-IsShort (suc n) (fam ∷ rest) =
      let (found, e) = canonical_ip-total fam rest in go (canonical_endpoints-IsShort n) found e
    where
      go :
          ((left : Bytes) → IsShort (canonical_endpoints utf8 decimal n left) left)
          → (found : Option (ℕ × Text)) → canonical_ip utf8 decimal fam rest ≡ ok found
          → IsShort (canonical_endpoints utf8 decimal (suc n) (fam ∷ rest)) (fam ∷ rest)
      go behind none e = ([], rest, rw (canonical_endpoints, e) refl, omega arith)
      go behind (some (k, ip)) e = elim (Bool-cases (ltb (length (drop k rest)) 2)) [
        | inl f ↦ (
          [],
          drop k rest,
          rw (canonical_endpoints, e, f) refl,
          omega (arith, length-drop k rest),
        )
        | inr f ↦
            let left : Bytes = drop k rest in
            let (eps, final, g, short) = behind (drop 2 left) in
            (
              (ip ++ (b'/' ∷ decimal (of_be_bytes (take 2 left)))) ∷ eps,
              final,
              rw (canonical_endpoints, e, f, g) refl,
              omega (arith, short, length-drop k rest, length-drop 2 left),
            )
      ]

  native_endpoints-IsShort :
      (n : ℕ) (rest : Bytes) → IsShort (native_endpoints utf8 decimal n rest) rest
  unfolding native_endpoints
  native_endpoints-IsShort zero rest = ([], rest, refl, omega arith)
  native_endpoints-IsShort (suc n) [] = ([], [], refl, omega arith)
  native_endpoints-IsShort (suc n) (k ∷ rest) = elim (Bool-cases (ltb (length rest) k)) [
    | inl e ↦ ([], rest, rw (native_endpoints, e) refl, omega arith)
    | inr e ↦
        let (eps, left, f, short) = native_endpoints-IsShort n (drop k rest) in
        let size : length left ≤ length (k ∷ rest) = omega (arith, short, length-drop k rest) in
        elim (Bool-cases (ltb 0 k)) [
          | inl g ↦ (
            utf8.from_utf8_lossy (take k rest) ∷ eps,
            left,
            rw (native_endpoints, e, g, f) refl,
            size,
          )
          | inr g ↦ (eps, left, rw (native_endpoints, e, g, f) refl, size)
        ]
  ]

  canonical_body-IsShort : (rest : Bytes) → IsShort (canonical_body utf8 decimal rest) rest
  unfolding canonical_body
  canonical_body-IsShort rest = go (if leb 65 (length rest) then drop 65 rest else rest) refl
    where
      go :
          (left : Bytes)
          → (if leb 65 (length rest) then drop 65 rest else rest) ≡ left
          → IsShort (canonical_body utf8 decimal rest) rest
      go [] e = ([], [], rw (canonical_body, e) refl, omega arith)
      go (k ∷ left) e =
          let size : length (k ∷ left) ≤ length rest =
            omega (arith, skipped_lem rest, ap length e) in
          let (eps, final, f, short) = canonical_endpoints-IsShort k left in
          (eps, final, rw (canonical_body, e, f) refl, omega (arith, short, size))

  native_body-IsShort : (rest : Bytes) → IsShort (native_body utf8 decimal rest) rest
  unfolding native_body
  native_body-IsShort rest = elim (Bool-cases (leb 2 (length rest))) [
    | inr e ↦ ([], rest, rw (native_body, e) refl, omega arith)
    | inl e ↦
        let (eps, left, f, short) =
          native_endpoints-IsShort (of_be_bytes (take 2 rest)) (drop 2 rest) in
        (
          eps,
          left,
          rw (native_body, e, slice-ok 2 rest (ground arith), f) refl,
          omega (arith, short, length-drop 2 rest),
        )
  ]

  body_of-IsShort :
      (canonical : Bool) (rest : Bytes) → IsShort (body_of utf8 decimal canonical rest) rest
  body_of-IsShort true rest = canonical_body-IsShort rest
  body_of-IsShort false rest = native_body-IsShort rest

  -- Every root that is read takes the five bytes of its address.
  abbrev IsRead : Bool → ℕ → Bytes → Type 0
  IsRead canonical n rest =
      (rs : List WorldRoot) × (left : Bytes) × (parse_roots utf8 decimal canonical n rest
        ≡ ok (rs, left))
      × (length rs ≤ n)
      × (5 * length rs + length left ≤ length rest)

  parse_roots-IsRead : (canonical : Bool) (n : ℕ) (rest : Bytes) → IsRead canonical n rest
  unfolding parse_roots
  parse_roots-IsRead canonical zero rest = ([], rest, refl, omega arith, omega arith)
  parse_roots-IsRead canonical (suc n) rest = elim (Bool-cases (ltb (length rest) 5)) [
    | inl e ↦ ([], rest, rw (parse_roots, e) refl, omega arith, omega arith)
    | inr e ↦
        let (eps, behind, b, short) = body_of-IsShort canonical (drop 5 rest) in
        let (a, f) = address_at-ok rest (ground arith) in
        let (rs, left, g, few, size) = parse_roots-IsRead canonical n behind in
        (
          record { identity = a; stable_endpoints = eps } ∷ rs,
          left,
          rw (parse_roots, e, f, b, g) refl,
          omega (arith, few),
          ground (arith, short, size, length-drop 5 rest),
        )
  ]

  trailing_signature-total :
      (rest : Bytes)
      → (sig : Bytes) × (trailing_signature utf8 decimal rest ≡ ok sig) × (length sig ≤ length rest)
  unfolding trailing_signature
  trailing_signature-total rest = elim (Bool-cases (leb 4 (length rest))) [
    | inr e ↦ ([], rw (trailing_signature, e) refl, omega arith)
    | inl e ↦
        let len : ℕ = of_be_bytes (take 4 rest) in
        let four = slice-ok {E = WorldError} 4 rest (ground arith) in
        elim (Bool-cases (ltb 0 len && leb len (length (drop 4 rest)))) [
          | inr f ↦ ([], rw (trailing_signature, e, four, f) refl, omega arith)
          | inl f ↦ (
            take len (drop 4 rest),
            rw (trailing_signature, e, four, f, slice-ok len (drop 4 rest) (ground arith)) refl,
            omega (arith, length-take len (drop 4 rest), length-drop 4 rest),
          )
        ]
  ]

  -- The signature of either format.
  signature_total :
      (canonical : Bool) (sig left bytes : Bytes)
      → length sig ≤ length bytes
      → length left ≤ length bytes
      → (found : Bytes) × ((if canonical then ok sig else trailing_signature utf8 decimal left)
          ≡ ok found)
        × (length found ≤ length bytes)
  signature_total true sig left bytes h k = (sig, refl, h)
  signature_total false sig left bytes h k =
      let (found, e, short) = trailing_signature-total left in (found, e, omega (arith, short, k))

  -- The layout of data that are long enough.
  abbrev IsLayout : Bytes → Type 0
  IsLayout bytes =
      (n : ℕ) × (rest : Bytes) × (sig : Bytes) × (layout utf8 decimal bytes ≡ ok (n, rest, sig))
      × (length rest + 18 ≤ length bytes)
      × (length sig ≤ length bytes)

  byte_at-ok :
      (bytes : Bytes) (i : ℕ) → i < length bytes → (b : ℕ) × (byte_at utf8 decimal bytes i ≡ ok b)
  byte_at-ok bytes i h = let (b, e) = get_elem?-some bytes i h in (b, rw (byte_at, e) refl)

  -- The native layout, where the data are not taken for canonical.
  native_header :
      (bytes : Bytes)
      → 18 ≤ length bytes
      → is_canonical_zt utf8 decimal bytes ≡ false
      → IsLayout bytes
  unfolding layout
  native_header bytes h e = elim (Bool-cases (leb 19 (length bytes))) [
    | inl f ↦ (
      of_be_bytes (take 2 (drop 17 bytes)),
      drop 19 bytes,
      [],
      rw
          (
            layout,
            e,
            f,
            slice-ok 2 (drop 17 bytes)
                (omega (arith, length-drop 17 bytes, leb→le 19 (length bytes) f)),
          )
          refl,
      omega (arith, length-drop 19 bytes, leb→le 19 (length bytes) f),
      omega arith,
    )
    | inr f ↦
        let (b, g) = byte_at-ok bytes 17 (omega (arith, h)) in
        (
          b,
          drop 18 bytes,
          [],
          rw (layout, e, f, g) refl,
          omega (arith, h, length-drop 18 bytes),
          omega arith,
        )
  ]

  is_canonical_zt-long :
      (bytes : Bytes)
      → is_canonical_zt utf8 decimal bytes ≡ true
      → (n : ℕ) × (byte_at utf8 decimal bytes 177 ≡ ok n) × (178 ≤ length bytes)
  unfolding is_canonical_zt
  is_canonical_zt-long bytes h = elim (Option-cases (get_elem? bytes 177)) [
    | inl e ↦ absurd (ground arith)
    | inr (n, e) ↦ (n, rw (byte_at, e) refl, omega (arith, get_elem?-lt bytes 177 n e))
  ]

  header_found : (bytes : Bytes) → 18 ≤ length bytes → IsLayout bytes
  unfolding layout
  header_found bytes h = elim (Bool-cases (is_canonical_zt utf8 decimal bytes)) [
    | inr e ↦ native_header bytes h e
    | inl e ↦
        let (n, f, long) = is_canonical_zt-long bytes e in
        (
          n,
          drop 178 bytes,
          take 96 (drop 81 bytes),
          rw (layout, e, slice-ok 96 (drop 81 bytes) (omega (arith, long, length-drop 81 bytes)), f)
              refl,
          omega (arith, long, length-drop 178 bytes),
          omega (arith, long, length-take 96 (drop 81 bytes)),
        )
  ]

  -- What is read from data: a world whose roots take five bytes each of the data behind the header.
  pub record IsParsed (bytes : Bytes) (w : World) : Type 0 where
    pub parsed : parse_binary utf8 decimal bytes ≡ ok w
    pub few_roots : 5 * length w.roots + 18 ≤ length bytes
    pub short_signature : length w.signature ≤ length bytes

  -- Data of at least 18 bytes are always read, without a panic, whatever they say: the counts and
  -- lengths in them never make more roots than a fifth of the data, or a signature longer than them.
  pub parse_binary-IsParsed : (bytes : Bytes) → 18 ≤ length bytes → (w : World) × IsParsed bytes w
  unfolding parse_binary
  parse_binary-IsParsed bytes h =
      let enough : leb 18 (length bytes) ≡ true = ground arith in
      let canonical : Bool = is_canonical_zt utf8 decimal bytes in
      let (ty, first) = byte_at-ok bytes 0 (omega (arith, h)) in
      let (n, rest, sig, laid, room, short) = header_found bytes h in
      let (rs, left, read, few, size) = parse_roots-IsRead canonical n rest in
      let (signature, sealed, fits) =
        signature_total canonical sig left bytes short (omega (arith, size, room)) in
      (
        record {
          world_type = ty;
          id = of_be_bytes (take 8 (drop 1 bytes));
          timestamp = of_be_bytes (take 8 (drop 9 bytes));
          roots = rs;
          signature = signature;
        },
        record {
          parsed =
              rw
                (
                  parse_binary,
                  enough,
                  first,
                  slice-ok 8 (drop 1 bytes) (omega (arith, h, length-drop 1 bytes)),
                  slice-ok 8 (drop 9 bytes) (omega (arith, h, length-drop 9 bytes)),
                  laid,
                  read,
                  sealed,
                )
                refl;
          few_roots = omega (arith, size, room);
          short_signature = fits;
        },
      )
