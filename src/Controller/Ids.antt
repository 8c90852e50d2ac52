-- ===== src/Controller/Ids.antt =====
-- src/controller.rs: the ids of new networks, `next_network_id`. The
-- random numbers are a sequence.
use zgalaxy_rs.Prelude.{
  ℕ, ◌%◌, ◌^◌, ◌≡◌, refl, ap, true, false, Option, none, some, List, [], ◌∷◌, ◌++◌, All, nat_beq,
  list_eq, nat_eq, if◌then◌else◌, Bool-cases, inl, inr,
}
use zgalaxy_rs.Prelude.Bytes.{be_bytes}
use zgalaxy_rs.Prelude.Text.{Text, hex_encode}
use zgalaxy_rs.Prelude.Dict
use zgalaxy_rs.Prelude.Dict.{Dict}
use zgalaxy_rs.Controller.Types.{Controller}

-- `rand::random::<u32>() & 0x00ff_ffff`, and 1 for 0.
abbrev pub postfix_of : ℕ → ℕ
postfix_of r = if nat_beq (r % 2 ^ 24) 0 then 1 else r % 2 ^ 24

module _ {Value : Type 0} (c : Controller Value) where
  -- `format!("{}{:06x}", ...)`, for a postfix of three bytes.
  unfoldable pub network_id : ℕ → Text
  unfolding hex_encode be_bytes
  network_id r = c.controller_address ++ hex_encode (be_bytes 3 (postfix_of r))

  -- The loop, on the random numbers that are drawn; it goes on while there is one.
  unfoldable pub next_network_id : List ℕ → Option Text
  unfolding network_id
  next_network_id [] = none
  next_network_id (r ∷ rs) =
      let rest = next_network_id rs in
      if Dict.contains_key c.networks (network_id r) then rest else some (network_id r)

  abbrev pub Taken : ℕ → Type 0
  Taken r = Dict.contains_key c.networks (network_id r) ≡ true

  -- How the search ends on a sequence of random numbers.
  pub data Search (rs : List ℕ) : Option Text → Type 0 where
    exhausted : All Taken rs → Search rs none
    found :
        (before after : List ℕ) (r : ℕ)
        → rs ≡ before ++ r ∷ after
        → All Taken before
        → Dict.contains_key c.networks (network_id r) ≡ false
        → Search rs (some (network_id r))

  Search-more : (r : ℕ) (rs : List ℕ) (o : Option Text) → Taken r → Search rs o → Search (r ∷ rs) o
  Search-more r rs o t (exhausted all) = exhausted (t, all)
  Search-more r rs o t (found before after s e all free) =
      found (r ∷ before) after s (ap (λ xs. r ∷ xs) e) (t, all) free

  -- The search for a network id ends with the first random number whose id is not in use, and only
  -- goes on while every number drawn gives an id in use.
  pub next_network_id-Search : (rs : List ℕ) → Search rs (next_network_id rs)
  unfolding next_network_id
  next_network_id-Search [] = exhausted tt
  next_network_id-Search (r ∷ rs) =
      elim (Bool-cases (Dict.contains_key c.networks (network_id r))) [
        | inl e ↦
            rw (next_network_id, e)
              (Search-more r rs (next_network_id rs) e (next_network_id-Search rs))
        | inr e ↦ rw (next_network_id, e) (found [] rs r refl tt e)
      ]
