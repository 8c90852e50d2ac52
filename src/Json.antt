-- ===== src/Json.antt =====
-- serde_json's `Value`, as an interface: the calls that the program makes, with what they are
-- documented to do.
use zgalaxy_rs.Prelude.{ℕ, Bool, Option, none, some, ◌≡◌, list_eq, nat_eq, if◌then◌else◌, ◌==◌}
use zgalaxy_rs.Prelude.Text.{Text}
use zgalaxy_rs.Prelude.Dict.{Dict}

pub record Json : Type 1 where
  pub Value : Type 0
  -- `v.get(key)`
  pub get : Value → Text → Option Value
  pub as_bool : Value → Option Bool
  pub as_u64 : Value → Option ℕ
  pub as_str : Value → Option Text
  -- `v.as_object()`, as the sequence of its entries.
  pub entries : Value → Option (Dict Text Value)
  -- `v[key] = w`, which panics unless `v` is an object or null.
  pub set : Value → Text → Value → Option Value
  pub of_text : Text → Value
  pub of_nat : ℕ → Value
  pub as_str_of_text : (t : Text) → as_str (of_text t) ≡ some t
  pub as_u64_of_nat : (n : ℕ) → as_u64 (of_nat n) ≡ some n
  pub get-set :
      (v v' : Value) (k : Text) (w : Value) (j : Text)
      → set v k w ≡ some v'
      → get v' j ≡ (if k == j then some w else get v j)

-- `v.get(key).and_then(|v| v.as_bool())`
abbrev pub get_bool : (json : Json) → json.Value → Text → Option Bool
get_bool json v k = elim (json.get v k) [ none ↦ none | some w ↦ json.as_bool w ]
