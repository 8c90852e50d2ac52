-- ===== src/World/Canonical/Layout.antt =====
-- The layout of the canonical format, and how it is read.
use zgalaxy_rs.Prelude.{
  ℕ, ◌^◌, ◌≡◌, ◌≤◌, ◌<◌, ◌∙◌, refl, ap, sym, true, some, List, [], ◌∷◌, ◌++◌, length, take, drop,
  get_elem?, arith, leb, le→leb, take-exact, drop-exact, length-append, length-drop,
}
use mathlib.Core.List.{append_assoc}
use zgalaxy_rs.Prelude.Bytes.{Bytes, be_bytes, of_be_bytes, of_be_bytes-be_bytes, length-be_bytes}
use zgalaxy_rs.Prelude.Text.{Text}
use zgalaxy_rs.Prelude.Outcome.{ok}
use zgalaxy_rs.Prelude.Slice.{slice-ok}
use zgalaxy_rs.World.{Utf8, WorldRoot}
use zgalaxy_rs.World.Parse.{byte_at, is_canonical_zt, layout, parse_roots, parse_binary}

get_elem?-exact :
    (n : ℕ) (xs : Bytes) (y : ℕ) (ys : Bytes) → length xs ≡ n → get_elem? (xs ++ y ∷ ys) n ≡ some y
get_elem?-exact n xs y ys h = ap (get_elem? (xs ++ y ∷ ys)) (sym h) ∙ go xs
  where
    go : (zs : Bytes) → get_elem? (zs ++ y ∷ ys) (length zs) ≡ some y
    go [] = refl
    go (z ∷ zs) = go zs

-- The parts of the format: type, id, timestamp, keys, signature, count of roots, and roots.
abbrev pub arranged : ℕ → ℕ → ℕ → Bytes → Bytes → ℕ → Bytes → Bytes
arranged ty id timestamp keys sig count rest =
    ty ∷ (be_bytes 8 id ++ (be_bytes 8 timestamp ++ (keys ++ (sig ++ count ∷ rest))))

-- The bytes in front of the signature.
abbrev pub head_of : ℕ → ℕ → ℕ → Bytes → Bytes
head_of ty id timestamp keys = ty ∷ (be_bytes 8 id ++ (be_bytes 8 timestamp ++ keys))

pub length-head_of :
    (ty id timestamp : ℕ) (keys : Bytes)
    → length keys ≡ 64
    → length (head_of ty id timestamp keys) ≡ 81
length-head_of ty id timestamp keys h = omega (
  arith,
  h,
  length-be_bytes 8 id,
  length-be_bytes 8 timestamp,
  length-append (be_bytes 8 id) (be_bytes 8 timestamp ++ keys),
  length-append (be_bytes 8 timestamp) keys,
)

pub head_of-append :
    (ty id timestamp : ℕ) (keys rest : Bytes)
    → head_of ty id timestamp keys ++ rest
      ≡ ty ∷ (be_bytes 8 id ++ (be_bytes 8 timestamp ++ (keys ++ rest)))
head_of-append ty id timestamp keys rest =
    ap (λ t. ty ∷ t)
      (append_assoc (be_bytes 8 id) (be_bytes 8 timestamp ++ keys) rest
        ∙ ap (λ t. be_bytes 8 id ++ t) (append_assoc (be_bytes 8 timestamp) keys rest))

pub record Arranged (bytes rest sig : Bytes) (ty id timestamp count : ℕ) : Type 0 where
  pub first : get_elem? bytes 0 ≡ some ty
  pub long : 178 ≤ length bytes
  pub ids : of_be_bytes (take 8 (drop 1 bytes)) ≡ id
  pub times : of_be_bytes (take 8 (drop 9 bytes)) ≡ timestamp
  pub counts : get_elem? bytes 177 ≡ some count
  pub signed : take 96 (drop 81 bytes) ≡ sig
  pub behind : drop 178 bytes ≡ rest

pub arranged_lem :
    (ty id timestamp count : ℕ) (keys sig rest : Bytes)
    → id < 2 ^ 64
    → timestamp < 2 ^ 64
    → length keys ≡ 64
    → length sig ≡ 96
    → Arranged (arranged ty id timestamp keys sig count rest) rest sig ty id timestamp count
arranged_lem ty id timestamp count keys sig rest hi ht hk hs =
    let head : Bytes = head_of ty id timestamp keys in
    let bytes : Bytes = arranged ty id timestamp keys sig count rest in
    let a : Bytes = be_bytes 8 id in
    let b : Bytes = be_bytes 8 timestamp in
    let more : Bytes = keys ++ (sig ++ count ∷ rest) in
    let size : length head ≡ 81 = length-head_of ty id timestamp keys hk in
    let split : bytes ≡ head ++ (sig ++ count ∷ rest) =
      sym (head_of-append ty id timestamp keys (sig ++ count ∷ rest)) in
    let again : bytes ≡ (head ++ sig) ++ count ∷ rest =
      split ∙ sym (append_assoc head sig (count ∷ rest)) in
    let full : length (head ++ sig) ≡ 177 = omega (arith, size, hs, length-append head sig) in
    let full' : length ((head ++ sig) ++ count ∷ []) ≡ 178 =
      omega (arith, full, length-append (head ++ sig) (count ∷ [])) in
    let whole : bytes ≡ ((head ++ sig) ++ count ∷ []) ++ rest =
      again ∙ sym (append_assoc (head ++ sig) (count ∷ []) rest) in
    record {
      first = refl;
      long = omega (arith, ap length again, full, length-append (head ++ sig) (count ∷ rest));
      ids =
          ap of_be_bytes (take-exact 8 a (b ++ more) (length-be_bytes 8 id))
          ∙ of_be_bytes-be_bytes 8 id hi;
      times =
          ap (λ t. of_be_bytes (take 8 t)) (drop-exact 8 a (b ++ more) (length-be_bytes 8 id))
          ∙ ap of_be_bytes (take-exact 8 b more (length-be_bytes 8 timestamp))
          ∙ of_be_bytes-be_bytes 8 timestamp ht;
      counts = ap (λ t. get_elem? t 177) again ∙ get_elem?-exact 177 (head ++ sig) count rest full;
      signed =
          ap (λ t. take 96 (drop 81 t)) split
          ∙ ap (take 96) (drop-exact 81 head (sig ++ count ∷ rest) size)
          ∙ take-exact 96 sig (count ∷ rest) hs;
      behind = ap (drop 178) whole ∙ drop-exact 178 ((head ++ sig) ++ count ∷ []) rest full';
    }

module _ (utf8 : Utf8) (decimal : ℕ → Text) where
  pub parse_with_header :
      (bytes rest left sig : Bytes) (ty id timestamp count : ℕ) (rs : List WorldRoot)
      → Arranged bytes rest sig ty id timestamp count
      → count ≤ 16
      → parse_roots utf8 decimal true count rest ≡ ok (rs, left)
      → parse_binary utf8 decimal bytes
        ≡ ok (record {
          world_type = ty;
          id = id;
          timestamp = timestamp;
          roots = rs;
          signature = sig;
        })
  unfolding parse_binary layout is_canonical_zt
  parse_with_header bytes rest left sig ty id timestamp count rs h few roots =
      let enough : leb 18 (length bytes) ≡ true =
        le→leb 18 (length bytes) (omega (arith, h.long)) in
      let small : leb count 16 ≡ true = le→leb count 16 few in
      let start : byte_at utf8 decimal bytes 0 ≡ ok ty = rw (byte_at, h.first) refl in
      let number : byte_at utf8 decimal bytes 177 ≡ ok count = rw (byte_at, h.counts) refl in
      let canonical : is_canonical_zt utf8 decimal bytes ≡ true =
        rw (is_canonical_zt, h.counts, small) refl in
      let laid : layout utf8 decimal bytes ≡ ok (count, rest, sig) =
        rw
          (
            layout,
            canonical,
            slice-ok 96 (drop 81 bytes) (omega (arith, h.long, length-drop 81 bytes)),
            number,
            h.behind,
            h.signed,
          )
          refl in
      rw
        (
          parse_binary,
          enough,
          start,
          slice-ok 8 (drop 1 bytes) (omega (arith, h.long, length-drop 1 bytes)),
          slice-ok 8 (drop 9 bytes) (omega (arith, h.long, length-drop 9 bytes)),
          laid,
          canonical,
          roots,
          h.ids,
          h.times,
        )
        refl
