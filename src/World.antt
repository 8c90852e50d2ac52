-- ===== src/World.antt =====
-- src/world.rs: the planet and moon definitions, and how they are written to bytes. UTF-8 is a
-- parameter; reading and writing the file is not modelled.
pub mod Parse
pub mod RoundTrip
pub mod Bounds
pub mod Canonical
use zgalaxy_rs.Prelude.{
  ℕ, zero, suc, ◌%◌, ◌^◌, ◌≡◌, Bool, true, false, List, [], ◌∷◌, ◌++◌, length, ltb, if◌then◌else◌,
}
use zgalaxy_rs.Prelude.Bytes.{Bytes, be_bytes}
use zgalaxy_rs.Prelude.Text.{Text}
use zgalaxy_rs.Identity.Address.{Address, as_bytes}

abbrev pub world_type_planet : ℕ
world_type_planet = 1

abbrev pub world_type_moon : ℕ
world_type_moon = 127

abbrev pub world_id_earth : ℕ
world_id_earth = 149604618

abbrev pub canonical_key_set_len : ℕ
canonical_key_set_len = 64

abbrev pub canonical_signature_len : ℕ
canonical_signature_len = 96

pub record WorldRoot : Type 0 where
  pub identity : Address
  pub stable_endpoints : List Text

pub record World : Type 0 where
  pub world_type : ℕ
  pub id : ℕ
  pub timestamp : ℕ
  pub roots : List WorldRoot
  pub signature : Bytes

-- `str::as_bytes` and `String::from_utf8_lossy`, which keeps valid text.
pub record Utf8 : Type 0 where
  pub bytes_of : Text → Bytes
  pub from_utf8_lossy : Bytes → Text
  pub lossy-bytes_of : (t : Text) → from_utf8_lossy (bytes_of t) ≡ t

abbrev pub new : ℕ → ℕ → ℕ → List WorldRoot → World
new world_type id timestamp roots = record {
  world_type = world_type;
  id = id;
  timestamp = timestamp;
  roots = roots;
  signature = [];
}

-- The endpoints of the root at an index, if there is one.
abbrev set_root : List WorldRoot → ℕ → List Text → List WorldRoot
set_root [] i endpoints = []
set_root (r ∷ rs) zero endpoints = record r { stable_endpoints = endpoints } ∷ rs
set_root (r ∷ rs) (suc i) endpoints = r ∷ set_root rs i endpoints

unfoldable pub set_root_stable_endpoints : World → ℕ → List Text → World
set_root_stable_endpoints w root_index endpoints =
    if ltb root_index (length w.roots)
    then record w { roots = set_root w.roots root_index endpoints }
    else w

module _ (utf8 : Utf8) where
  open utf8 use {bytes_of}

  unfoldable pub encode_endpoints : List Text → Bytes
  encode_endpoints [] = []
  encode_endpoints (ep ∷ eps) = (length (bytes_of ep) % 256) ∷ (bytes_of ep ++ encode_endpoints eps)

  unfoldable pub encode_roots : List WorldRoot → Bytes
  unfolding as_bytes encode_endpoints
  encode_roots [] = []
  encode_roots (root ∷ roots) =
      as_bytes root.identity
      ++ (be_bytes 2 (length root.stable_endpoints % 2 ^ 16)
          ++ (encode_endpoints root.stable_endpoints ++ encode_roots roots))

  unfoldable pub encode : World → Bytes
  unfolding encode_roots
  encode w =
      w.world_type
      ∷ (be_bytes 8 w.id
          ++ (be_bytes 8 w.timestamp
              ++ (be_bytes 2 (length w.roots % 2 ^ 16)
                  ++ (encode_roots w.roots
                      ++ (be_bytes 4 (length w.signature % 2 ^ 32) ++ w.signature)))))
