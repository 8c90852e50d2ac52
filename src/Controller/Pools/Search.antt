-- ===== src/Controller/Pools/Search.antt =====
-- `next_free_ip` finds the first free address, and finds none only where the pools are full.
use zgalaxy_rs.Prelude.{
  ℕ, zero, suc, ◌+◌, ◌-◌, ◌≡◌, ◌≤◌, ◌<◌, inl, inr, refl, true, false, Option, none, some, List, [],
  ◌∷◌, contains, nat_eq, list_eq, arith, Bool-cases, Option-cases, subst, ◌^◌,
}
use native.Mathlib.Decide.{ℕ_discrete}
use zgalaxy_rs.Prelude.Text.{Text}
use zgalaxy_rs.Prelude.Dict
use zgalaxy_rs.Controller.IpText.{IpText}
use zgalaxy_rs.Controller.Types.{IpAssignmentPool, Controller}
use zgalaxy_rs.Controller.Pools.{
  first_unused, range_of, in_pool, free_in_pools, next_free_ip, members_of, used_v4, AllUsed,
  IsFirstFree, here, later,
}

-- What the scan of `count` candidates finds.
data Scan (used : List ℕ) (count first : ℕ) : Option ℕ → Type 0 where
  full :
      ((c : ℕ) → first ≤ c → c < first + count → contains used c ≡ true)
      → Scan used count first none
  found :
      (c : ℕ)
      → first ≤ c
      → c < first + count
      → contains used c ≡ false
      → ((d : ℕ) → first ≤ d → d < c → contains used d ≡ true)
      → Scan used count first (some c)

at_or_after :
    (used : List ℕ) (first d : ℕ)
    → contains used first ≡ true
    → first ≤ d
    → (suc first ≤ d → contains used d ≡ true)
    → contains used d ≡ true
at_or_after used first d h le rest = elim (ℕ_discrete first d) [
  | yes e ↦ subst (λ x. contains used x ≡ true) e h
  | no n ↦ rest (omega arith)
]

first_unused-Scan :
    (used : List ℕ) (count first : ℕ) → Scan used count first (first_unused used count first)
unfolding first_unused
first_unused-Scan used zero first = full (λ c a b. absurd (omega arith))
first_unused-Scan used (suc count) first = elim (Bool-cases (contains used first)) [
  | inl taken ↦ rw taken (step taken (first_unused-Scan used count (suc first)))
  | inr free ↦
      rw free (found first (omega arith) (omega arith) free (λ d a b. absurd (omega arith)))
]
  where
    step :
        {o : Option ℕ}
        → contains used first ≡ true
        → Scan used count (suc first) o
        → Scan used (suc count) first o
    step h (full all) = full (λ c a b. at_or_after used first c h a (λ le. all c le (omega arith)))
    step h (found c a b free all) =
        found c (omega arith) (omega arith) free
          (λ d x y. at_or_after used first d h x (λ le. all d le y))

module _ (ips : IpText) where
  open ips use {v4_text, v4_parse}

  -- The result of the search: a first free address and its text, or no address and full pools.
  pub data Search (used : List ℕ) (pools : List IpAssignmentPool) : Option Text → Type 0 where
    exhausted : AllUsed ips used pools → Search used pools none
    assigned : (c : ℕ) → IsFirstFree ips used c pools → Search used pools (some (v4_text c))

  -- A range that parses is in order, and within the IPv4 addresses.
  pub range_of-ordered :
      (pool : IpAssignmentPool) (start end : ℕ)
      → range_of ips pool ≡ some (start, end)
      → (start ≤ end) × (end < 2 ^ 32)
  unfolding range_of
  range_of-ordered pool start end h = elim (Option-cases (v4_parse pool.ip_range_start)) [
    | inl e ↦ ground arith
    | inr (s, e) ↦ elim (Option-cases (v4_parse pool.ip_range_end)) [
      | inl k ↦ ground arith
      | inr (t, k) ↦ ground (arith, ips.v4_parse_range pool.ip_range_end t k)
    ]
  ]

  -- The search in one pool.
  data PoolSearch (used : List ℕ) (pool : IpAssignmentPool) : Option ℕ → Type 0 where
    full_pool : AllUsed ips used (pool ∷ []) → PoolSearch used pool none
    in_this_pool :
        (c : ℕ)
        → ((pools : List IpAssignmentPool) → IsFirstFree ips used c (pool ∷ pools))
        → PoolSearch used pool (some c)

  in_pool-PoolSearch :
      (used : List ℕ) (pool : IpAssignmentPool) (o : Option (ℕ × ℕ))
      → range_of ips pool ≡ o
      → PoolSearch used pool (in_pool ips used o)
  in_pool-PoolSearch used pool none e = full_pool ((λ start end c h. cc), tt)
  in_pool-PoolSearch used pool (some (start, end)) e =
      go (first_unused-Scan used (suc (end - start)) start)
    where
      go : {o : Option ℕ} → Scan used (suc (end - start)) start o → PoolSearch used pool o
      go (full all) = full_pool ((λ s' e' c h a b. all c (ground arith) (ground arith)), tt)
      go (found c a b free all) =
          let ordered = (range_of-ordered pool start end e).0 in
          in_this_pool c (λ pools. here start end e a (omega (arith, ordered)) free all)

  free_in_pools-Search :
      (used : List ℕ) (pools : List IpAssignmentPool)
      → Search used pools (free_in_pools ips used pools)
  unfolding free_in_pools
  free_in_pools-Search used [] = exhausted tt
  free_in_pools-Search used (pool ∷ pools) =
      go (in_pool-PoolSearch used pool (range_of ips pool) refl) (free_in_pools-Search used pools)
    where
      go :
          {o : Option ℕ} {r : Option Text}
          → PoolSearch used pool o
          → Search used pools r
          → Search used (pool ∷ pools) (elim o [ none ↦ r | some c ↦ some (v4_text c) ])
      go (full_pool all) (exhausted rest) = exhausted (all.0, rest)
      go (full_pool all) (assigned c f) = assigned c (later all f)
      go (in_this_pool c f) s = assigned c (f pools)

  -- A first free address is an address, is not used, and is the text that the search returns.
  pub IsFirstFree-unused :
      {used : List ℕ} {c : ℕ} {pools : List IpAssignmentPool}
      → IsFirstFree ips used c pools
      → (contains used c ≡ false) × (c < 2 ^ 32)
  IsFirstFree-unused (here {pool = p} start end e a b free all) =
      (free, omega (arith, (range_of-ordered p start end e).1))
  IsFirstFree-unused (later all f) = IsFirstFree-unused f

  -- `next_free_ip` returns the first address, in the order of the pools, that no member of the network
  -- holds, and returns nothing only if the members hold every address of every pool.
  pub next_free_ip-Search :
      {Value : Type 0} (ctrl : Controller Value) (nwid : Text) (pools : List IpAssignmentPool)
      → Search
          (used_v4 ips (members_of (Dict.get ctrl.members nwid)))
          pools
          (next_free_ip ips ctrl nwid pools)
  unfolding next_free_ip
  next_free_ip-Search ctrl nwid pools =
      free_in_pools-Search (used_v4 ips (members_of (Dict.get ctrl.members nwid))) pools
