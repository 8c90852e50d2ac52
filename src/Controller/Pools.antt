-- ===== src/Controller/Pools.antt =====
-- `next_free_ip`: the first free IPv4 address of the assignment pools.
pub mod Search
use zgalaxy_rs.Prelude.{
  ℕ, zero, suc, ◌+◌, ◌-◌, ◌≡◌, ◌≤◌, ◌<◌, ◌⊎◌, inl, inr, refl, Bool, true, false, Option, none, some,
  List, [], ◌∷◌, ◌++◌, contains, nat_eq, list_eq, ltb, if◌then◌else◌, filter_map, arith, Bool-cases,
  Option-cases,
}
use zgalaxy_rs.Prelude.Text.{Text}
use zgalaxy_rs.Prelude.Dict
use zgalaxy_rs.Controller.IpText.{IpText}
use zgalaxy_rs.Controller.Types.{IpAssignmentPool, MemberRecord, Members, Controller}

-- `for candidate in start..=end`, `count` candidates of it: the first that is not used.
unfoldable pub first_unused : List ℕ → ℕ → ℕ → Option ℕ
first_unused used zero candidate = none
first_unused used (suc count) candidate =
    let rest = first_unused used count (suc candidate) in
    if contains used candidate then rest else some candidate

abbrev pub members_of : {Value : Type 0} → Option (Members Value) → Members Value
members_of none = []
members_of (some m) = m

module _ {Value : Type 0} where
  -- `m.values().flat_map(|r| r.ip_assignments.iter())`
  unfoldable pub all_assignments : Members Value → List Text
  all_assignments [] = []
  all_assignments ((id, r) ∷ m) = r.ip_assignments ++ all_assignments m

module _ (ips : IpText) where
  open ips use {v4_parse, v4_text}

  abbrev pub used_v4 : {Value : Type 0} → Members Value → List ℕ
  used_v4 m = filter_map v4_parse (all_assignments m)

  -- The two ends of a pool, where both parse and are in order.
  unfoldable pub range_of : IpAssignmentPool → Option (ℕ × ℕ)
  range_of pool = elim (v4_parse pool.ip_range_start) [
    | none ↦ none
    | some start ↦ elim (v4_parse pool.ip_range_end) [
      | none ↦ none
      | some end ↦ if ltb end start then none else some (start, end)
    ]
  ]

  abbrev pub in_pool : List ℕ → Option (ℕ × ℕ) → Option ℕ
  in_pool used none = none
  in_pool used (some (start, end)) = first_unused used (suc (end - start)) start

  unfoldable pub free_in_pools : List ℕ → List IpAssignmentPool → Option Text
  unfolding range_of first_unused
  free_in_pools used [] = none
  free_in_pools used (pool ∷ pools) =
      let rest = free_in_pools used pools in
      elim (in_pool used (range_of pool)) [ none ↦ rest | some c ↦ some (v4_text c) ]

  unfoldable pub next_free_ip :
      {Value : Type 0} → Controller Value → Text → List IpAssignmentPool → Option Text
  unfolding free_in_pools all_assignments
  next_free_ip ctrl nwid pools =
      free_in_pools (used_v4 (members_of (Dict.get ctrl.members nwid))) pools

  -- Every candidate of the pools is used.
  abbrev pub AllUsed : List ℕ → List IpAssignmentPool → Type 0
  AllUsed used [] = Unit {0}
  AllUsed used (pool ∷ pools) =
      ((start end c : ℕ)
        → range_of pool ≡ some (start, end)
        → start ≤ c
        → c ≤ end
        → contains used c ≡ true)
      × AllUsed used pools

  -- `t` is the text of `c`, the first address that is free: it lies in a pool, it is not used, and
  -- all before it in that pool and in the pools before are.
  pub data IsFirstFree (used : List ℕ) (c : ℕ) : List IpAssignmentPool → Type 0 where
    here :
        {pool : IpAssignmentPool} {pools : List IpAssignmentPool} (start end : ℕ)
        → range_of pool ≡ some (start, end)
        → start ≤ c
        → c ≤ end
        → contains used c ≡ false
        → ((d : ℕ) → start ≤ d → d < c → contains used d ≡ true)
        → IsFirstFree used c (pool ∷ pools)
    later :
        {pool : IpAssignmentPool} {pools : List IpAssignmentPool}
        → AllUsed used (pool ∷ [])
        → IsFirstFree used c pools
        → IsFirstFree used c (pool ∷ pools)
