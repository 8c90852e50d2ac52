-- ===== src/World/RoundTrip.antt =====
-- A world that is written in the native format is read back.
use zgalaxy_rs.Prelude.{
  ℕ, suc, ◌%◌, ◌^◌, ◌≡◌, ◌≤◌, ◌<◌, ◌∙◌, refl, ap, sym, true, false, ◌&&◌, some, List, [], ◌∷◌, ◌++◌,
  length, take, drop, get_elem?, All, arith, ltb, leb, if◌then◌else◌, take-exact, drop-exact,
  drop-append, length-append, length-drop,
}
use mathlib.Core.List.{append_assoc}
use zgalaxy_rs.Prelude.Bytes.{Bytes, be_bytes, of_be_bytes, of_be_bytes-be_bytes, length-be_bytes}
use zgalaxy_rs.Prelude.Text.{Text}
use zgalaxy_rs.Prelude.Outcome.{ok}
use zgalaxy_rs.Prelude.Slice.{slice, slice-ok, slice-exact, slice-append}
use zgalaxy_rs.Identity.Address.{as_bytes, of_slice}
use zgalaxy_rs.World.{Utf8, World, WorldRoot, encode_endpoints, encode_roots, encode}
use zgalaxy_rs.World.Parse.{
  WorldError, native_endpoints, native_body, parse_roots, is_canonical_zt, layout,
  trailing_signature, parse_binary, byte_at,
}

module _ (utf8 : Utf8) (decimal : ℕ → Text) where
  open utf8 use {bytes_of, from_utf8_lossy, lossy-bytes_of}

  -- An endpoint that fits the length byte, and is not empty.
  abbrev pub IsEndpoint : Text → Type 0
  IsEndpoint ep = (0 < length (bytes_of ep)) × (length (bytes_of ep) < 256)

  abbrev pub IsRoot : WorldRoot → Type 0
  IsRoot r = (length r.stable_endpoints < 2 ^ 16) × All IsEndpoint r.stable_endpoints

  -- What fits the fields of the format.
  pub record IsWorld (w : World) : Type 0 where
    pub id : w.id < 2 ^ 64
    pub timestamp : w.timestamp < 2 ^ 64
    pub count : length w.roots < 2 ^ 16
    pub roots : All IsRoot w.roots
    pub size : length w.signature < 2 ^ 32

  endpoints_lem :
      (eps : List Text) (rest : Bytes)
      → All IsEndpoint eps
      → native_endpoints utf8 decimal (length eps) (encode_endpoints utf8 eps ++ rest)
        ≡ ok (eps, rest)
  unfolding native_endpoints encode_endpoints
  endpoints_lem [] rest h = refl
  endpoints_lem (ep ∷ eps) rest h =
      let bs : Bytes = bytes_of ep in
      let tail : Bytes = encode_endpoints utf8 eps ++ rest in
      let same : (bs ++ encode_endpoints utf8 eps) ++ rest ≡ bs ++ tail =
        append_assoc bs (encode_endpoints utf8 eps) rest in
      let small : length bs % 256 ≡ length bs = omega (arith, h.0.1) in
      rw
        (
          same,
          small,
          slice-append bs tail,
          drop-append bs tail,
          endpoints_lem eps rest h.1,
          lossy-bytes_of ep,
        )
        (ground (arith, h.0.0, length-append bs tail))

  body_lem :
      (r : WorldRoot) (rest : Bytes)
      → IsRoot r
      → native_body utf8 decimal (
          be_bytes 2 (length r.stable_endpoints % 2 ^ 16)
          ++ (encode_endpoints utf8 r.stable_endpoints ++ rest))
        ≡ ok (r.stable_endpoints, rest)
  unfolding native_body
  body_lem r rest h =
      let n : ℕ = length r.stable_endpoints % 2 ^ 16 in
      let tail : Bytes = encode_endpoints utf8 r.stable_endpoints ++ rest in
      let two : length (be_bytes 2 n) ≡ 2 = length-be_bytes 2 n in
      let small : n ≡ length r.stable_endpoints = omega (arith, h.0) in
      let read : native_endpoints utf8 decimal n tail ≡ ok (r.stable_endpoints, rest) =
        ap (λ k. native_endpoints utf8 decimal k tail) small
        ∙ endpoints_lem r.stable_endpoints rest h.1 in
      rw
        (
          native_body,
          slice-exact 2 (be_bytes 2 n) tail two,
          drop-exact 2 (be_bytes 2 n) tail two,
          of_be_bytes-be_bytes 2 n (omega arith),
        )
        (ground (arith, length-append (be_bytes 2 n) tail, two, read))

  -- The bytes of a root behind its address, with what follows.
  root_tail : WorldRoot → Bytes → Bytes
  root_tail r rest =
      be_bytes 2 (length r.stable_endpoints % 2 ^ 16)
      ++ (encode_endpoints utf8 r.stable_endpoints ++ rest)

  encode_roots-tail :
      (r : WorldRoot) (rs : List WorldRoot) (rest : Bytes)
      → encode_roots utf8 (r ∷ rs) ++ rest
        ≡ as_bytes r.identity ++ root_tail r (encode_roots utf8 rs ++ rest)
  unfolding encode_roots root_tail
  encode_roots-tail r rs rest =
      let n : Bytes = be_bytes 2 (length r.stable_endpoints % 2 ^ 16) in
      let eps : Bytes = encode_endpoints utf8 r.stable_endpoints in
      let more : Bytes = encode_roots utf8 rs in
      append_assoc (as_bytes r.identity) (n ++ (eps ++ more)) rest
      ∙ ap (λ t. as_bytes r.identity ++ t)
          (append_assoc n (eps ++ more) rest ∙ ap (λ t. n ++ t) (append_assoc eps more rest))

  parse_root :
      (r : WorldRoot) (n : ℕ) (rest left : Bytes) (rs : List WorldRoot)
      → IsRoot r
      → parse_roots utf8 decimal false n rest ≡ ok (rs, left)
      → parse_roots utf8 decimal false (suc n) (as_bytes r.identity ++ root_tail r rest)
        ≡ ok (r ∷ rs, left)
  unfolding parse_roots as_bytes of_slice root_tail
  parse_root r n rest left rs h e = ground (arith, body_lem r rest h, e)

  roots_lem :
      (rs : List WorldRoot) (rest : Bytes)
      → All IsRoot rs
      → parse_roots utf8 decimal false (length rs) (encode_roots utf8 rs ++ rest) ≡ ok (rs, rest)
  unfolding parse_roots encode_roots
  roots_lem [] rest h = refl
  roots_lem (r ∷ rs) rest h =
      ap (parse_roots utf8 decimal false (suc (length rs))) (encode_roots-tail r rs rest)
      ∙ parse_root r (length rs) (encode_roots utf8 rs ++ rest) rest rs h.0 (roots_lem rs rest h.1)

  take-all : (xs : Bytes) → take (length xs) xs ≡ xs
  take-all [] = refl
  take-all (x ∷ xs) = ap (λ t. x ∷ t) (take-all xs)

  signature_cases :
      (sig : Bytes) (n : ℕ)
      → n ≡ length sig
      → (if ltb 0 n && leb n (length sig) then slice {E = WorldError} n sig else ok []) ≡ ok sig
  signature_cases [] n same = ground arith
  signature_cases (b ∷ bs) n same =
      let whole : slice {E = WorldError} n (b ∷ bs) ≡ ok (b ∷ bs) =
        slice-ok n (b ∷ bs) (omega (arith, same))
        ∙ ap ok (ap (λ k. take k (b ∷ bs)) same ∙ take-all (b ∷ bs)) in
      ground (arith, whole)

  signature_lem :
      (sig : Bytes)
      → length sig < 2 ^ 32
      → trailing_signature utf8 decimal (be_bytes 4 (length sig % 2 ^ 32) ++ sig) ≡ ok sig
  unfolding trailing_signature
  signature_lem sig h =
      let n : ℕ = length sig % 2 ^ 32 in
      let four : length (be_bytes 4 n) ≡ 4 = length-be_bytes 4 n in
      let small : n ≡ length sig = omega (arith, h) in
      let enough : leb 4 (length (be_bytes 4 n ++ sig)) ≡ true =
        ground (arith, length-append (be_bytes 4 n) sig, four) in
      rw
        (
          trailing_signature,
          enough,
          slice-exact 4 (be_bytes 4 n) sig four,
          drop-exact 4 (be_bytes 4 n) sig four,
          of_be_bytes-be_bytes 4 n (omega arith),
        )
        (signature_cases sig n small)

  -- The header of the native format.
  record Header (bytes rest : Bytes) (ty id timestamp count : ℕ) : Type 0 where
    first : get_elem? bytes 0 ≡ some ty
    long : 19 ≤ length bytes
    ids : of_be_bytes (take 8 (drop 1 bytes)) ≡ id
    times : of_be_bytes (take 8 (drop 9 bytes)) ≡ timestamp
    counts : of_be_bytes (take 2 (drop 17 bytes)) ≡ count
    behind : drop 19 bytes ≡ rest

  layout_native :
      (bytes rest : Bytes) (ty id timestamp count : ℕ)
      → is_canonical_zt utf8 decimal bytes ≡ false
      → Header bytes rest ty id timestamp count
      → layout utf8 decimal bytes ≡ ok (count, rest, [])
  unfolding layout
  layout_native bytes rest ty id timestamp count e h =
      let more : leb 19 (length bytes) ≡ true = ground (arith, h.long) in
      let read =
        slice-ok {E = WorldError} 2 (drop 17 bytes) (omega (arith, h.long, length-drop 17 bytes)) in
      rw (layout, e, more, read, h.counts, h.behind) refl

  parse_native :
      (bytes rest left sig : Bytes) (ty id timestamp count : ℕ) (rs : List WorldRoot)
      → is_canonical_zt utf8 decimal bytes ≡ false
      → Header bytes rest ty id timestamp count
      → parse_roots utf8 decimal false count rest ≡ ok (rs, left)
      → trailing_signature utf8 decimal left ≡ ok sig
      → parse_binary utf8 decimal bytes
        ≡ ok (record {
          world_type = ty;
          id = id;
          timestamp = timestamp;
          roots = rs;
          signature = sig;
        })
  unfolding parse_binary
  parse_native bytes rest left sig ty id timestamp count rs e h roots sealed =
      let enough : leb 18 (length bytes) ≡ true = ground (arith, h.long) in
      let start : byte_at utf8 decimal bytes 0 ≡ ok ty = rw (byte_at, h.first) refl in
      rw
        (
          parse_binary,
          enough,
          start,
          slice-ok 8 (drop 1 bytes) (omega (arith, h.long, length-drop 1 bytes)),
          slice-ok 8 (drop 9 bytes) (omega (arith, h.long, length-drop 9 bytes)),
          layout_native bytes rest ty id timestamp count e h,
          e,
          roots,
          sealed,
          h.ids,
          h.times,
        )
        refl

  header_lem :
      (ty id timestamp count : ℕ) (rest : Bytes)
      → id < 2 ^ 64
      → timestamp < 2 ^ 64
      → count < 2 ^ 16
      → Header
          (ty ∷ (be_bytes 8 id ++ (be_bytes 8 timestamp ++ (be_bytes 2 (count % 2 ^ 16) ++ rest))))
          rest
          ty
          id
          timestamp
          count
  header_lem ty id timestamp count rest hi ht hc =
      let a : Bytes = be_bytes 8 id in
      let b : Bytes = be_bytes 8 timestamp in
      let c : Bytes = be_bytes 2 (count % 2 ^ 16) in
      let la : length a ≡ 8 = length-be_bytes 8 id in
      let lb : length b ≡ 8 = length-be_bytes 8 timestamp in
      let lc : length c ≡ 2 = length-be_bytes 2 (count % 2 ^ 16) in
      let two : a ++ (b ++ (c ++ rest)) ≡ (a ++ b) ++ (c ++ rest) =
        sym (append_assoc a b (c ++ rest)) in
      let three : a ++ (b ++ (c ++ rest)) ≡ (a ++ (b ++ c)) ++ rest =
        ap (λ t. a ++ t) (sym (append_assoc b c rest)) ∙ sym (append_assoc a (b ++ c) rest) in
      record {
        first = refl;
        long = omega (
          arith,
          la,
          lb,
          lc,
          length-append a (b ++ (c ++ rest)),
          length-append b (c ++ rest),
          length-append c rest,
        );
        ids = ap of_be_bytes (take-exact 8 a (b ++ (c ++ rest)) la) ∙ of_be_bytes-be_bytes 8 id hi;
        times =
            ap (λ t. of_be_bytes (take 8 t)) (drop-exact 8 a (b ++ (c ++ rest)) la)
            ∙ ap of_be_bytes (take-exact 8 b (c ++ rest) lb)
            ∙ of_be_bytes-be_bytes 8 timestamp ht;
        counts =
            ap (λ t. of_be_bytes (take 2 (drop 16 t))) two
            ∙ ap (λ t. of_be_bytes (take 2 t))
                (drop-exact 16 (a ++ b) (c ++ rest) (omega (arith, la, lb, length-append a b)))
            ∙ ap of_be_bytes (take-exact 2 c rest lc)
            ∙ of_be_bytes-be_bytes 2 (count % 2 ^ 16) (omega arith)
            ∙ omega (arith, hc);
        behind =
            ap (drop 18) three
            ∙ drop-exact 18 (a ++ (b ++ c)) rest
                (omega (arith, la, lb, lc, length-append a (b ++ c), length-append b c));
      }

  -- A world whose numbers and lengths fit the fields of the format, with no empty endpoint, is read
  -- back as it was from the bytes it is written to, unless these bytes are taken for the canonical
  -- format.
  pub parse_binary-encode :
      (w : World)
      → IsWorld w
      → is_canonical_zt utf8 decimal (encode utf8 w) ≡ false
      → parse_binary utf8 decimal (encode utf8 w) ≡ ok w
  unfolding encode
  parse_binary-encode w h e =
      let tail : Bytes = be_bytes 4 (length w.signature % 2 ^ 32) ++ w.signature in
      parse_native (encode utf8 w) (encode_roots utf8 w.roots ++ tail) tail w.signature w.world_type
        w.id w.timestamp (length w.roots) w.roots e
        (header_lem w.world_type w.id w.timestamp (length w.roots)
          (encode_roots utf8 w.roots ++ tail) h.id h.timestamp h.count)
        (roots_lem w.roots tail h.roots) (signature_lem w.signature h.size)
