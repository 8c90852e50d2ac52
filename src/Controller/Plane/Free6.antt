-- ===== src/Controller/Plane/Free6.antt =====
-- `next_free_ipv6` over all the pools.
use zgalaxy_rs.Prelude.{
  ℕ, ◌+◌, ◌-◌, ◌^◌, ◌≡◌, ◌≢◌, ◌≤◌, ◌<◌, ◌⊎◌, inl, inr, false, Option, none, some, List, [], ◌∷◌,
  contains, nat_eq, list_eq, arith, refl, All, Option-cases, ◌∙◌,
}
use mathlib.Core.Path.{ap₂}
use native.Mathlib.Decide.{dec_lt}
use zgalaxy_rs.Prelude.Bytes.{Bytes}
use zgalaxy_rs.Prelude.Text.{Text}
use zgalaxy_rs.Prelude.Outcome.{Outcome, ok}
use zgalaxy_rs.Prelude.Dict
use zgalaxy_rs.Controller.IpText.{IpText}
use zgalaxy_rs.Controller.Types.{IpAssignmentPool, Controller}
use zgalaxy_rs.Controller.Pools.{members_of}
use zgalaxy_rs.Controller.Plane.Opaque.{
  Hmac, dad_loop_lem, used_v6, range_of_v6, or_next, probe_pool, probe_pools, next_free_ipv6,
}

module _ (ips : IpText) (hmac : Hmac) where
  open ips use {v6_text, v6_parse}

  -- The pool does not hold every IPv6 address.
  abbrev pub IsPartial : IpAssignmentPool → Type 0
  IsPartial pool = range_of_v6 ips hmac pool ≢ some (0, 2 ^ 128 - 1)

  -- An address that lies in one of the pools and is not used.
  pub data IsFree (used : List ℕ) (c : ℕ) : List IpAssignmentPool → Type 0 where
    here :
        {pool : IpAssignmentPool} {pools : List IpAssignmentPool} (start end : ℕ)
        → range_of_v6 ips hmac pool ≡ some (start, end)
        → start ≤ c
        → c ≤ end
        → contains used c ≡ false
        → IsFree used c (pool ∷ pools)
    later :
        {pool : IpAssignmentPool} {pools : List IpAssignmentPool}
        → IsFree used c pools
        → IsFree used c (pool ∷ pools)

  range_of_v6-ordered :
      (pool : IpAssignmentPool) (start end : ℕ)
      → range_of_v6 ips hmac pool ≡ some (start, end)
      → (start ≤ end) × (end < 2 ^ 128)
  unfolding range_of_v6
  range_of_v6-ordered pool start end h = elim (Option-cases (v6_parse pool.ip_range_start)) [
    | inl e ↦ ground arith
    | inr (s, e) ↦ elim (Option-cases (v6_parse pool.ip_range_end)) [
      | inl k ↦ ground arith
      | inr (t, k) ↦ ground (arith, ips.v6_parse_range pool.ip_range_end t k)
    ]
  ]

  -- What the search returns: nothing, or the text of a free address.
  abbrev pub Found : List ℕ → List IpAssignmentPool → Outcome (Unit {0}) (Option Text) → Type 0
  Found used pools r = (r ≡ ok none) ⊎ ((c : ℕ) × (r ≡ ok (some (v6_text c))) × IsFree used c pools)

  probe_pools-Found :
      (nwid member_id : Text) (key : Bytes) (used : List ℕ) (pools : List IpAssignmentPool)
      → All IsPartial pools
      → Found used pools (probe_pools ips hmac nwid member_id key used pools)
  unfolding probe_pools
  probe_pools-Found nwid member_id key used [] h = inl refl
  probe_pools-Found nwid member_id key used (pool ∷ pools) h =
      go (range_of_v6 ips hmac pool) refl (probe_pools-Found nwid member_id key used pools h.1)
    where
      rest : Outcome (Unit {0}) (Option Text)
      rest = probe_pools ips hmac nwid member_id key used pools

      next : Found used pools rest → Found used (pool ∷ pools) rest
      next (inl e) = inl e
      next (inr (c, e, f)) = inr (c, e, later f)

      go :
          (o : Option (ℕ × ℕ))
          → range_of_v6 ips hmac pool ≡ o
          → Found used pools rest
          → Found used
              (pool ∷ pools)
              (or_next ips hmac (probe_pool ips hmac nwid member_id key used o) rest)
      go none e found = next found
      go (some (start, end)) e found =
          let ordered = range_of_v6-ordered pool start end e in
          let small : end - start + 1 < 2 ^ 128 = elim (dec_lt (end - start + 1) (2 ^ 128)) [
            | yes p ↦ p
            | no q ↦ absurd (h.0 (e ∙ ap₂ (λ x y. some (x, y)) (omega arith) (omega arith)))
          ] in
          elim (dad_loop_lem hmac start end nwid member_id key used 256 0 ordered.0 ordered.1
            small) [
              | inl none_free ↦ rw none_free (next found)
              | inr (c, hit, lo, hi, free) ↦ rw hit (inr (c, refl, here start end e lo hi free))
            ]

  -- If no pool is the whole address space the search does not panic, and an address that it returns
  -- lies in a pool and is held by no member of the network.
  pub next_free_ipv6-Found :
      {Value : Type 0} (ctrl : Controller Value) (key : Bytes) (nwid member_id : Text)
      (pools : List IpAssignmentPool)
      → All IsPartial pools
      → Found
          (used_v6 ips hmac (members_of (Dict.get ctrl.members nwid)))
          pools
          (next_free_ipv6 ips hmac ctrl key nwid member_id pools)
  unfolding next_free_ipv6
  next_free_ipv6-Found ctrl key nwid member_id pools h =
      probe_pools-Found nwid member_id key
        (used_v6 ips hmac (members_of (Dict.get ctrl.members nwid))) pools h
