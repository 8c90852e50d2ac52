-- ===== src/Controller/Plane/Opaque.antt =====
-- `compute_rfc7217_opaque_ip` and the search of `next_free_ipv6`. HMAC-SHA256 is a parameter; a sum
-- above the largest `u128` panics in a build that checks overflow, and one that does not check divides
-- by 0 next, which panics too.
use zgalaxy_rs.Prelude.{
  ℕ, zero, suc, ◌+◌, ◌-◌, ◌%◌, ◌^◌, ◌≡◌, ◌≤◌, ◌<◌, false, Option, none, some, List, [], ◌∷◌, ◌++◌,
  take, ltb, nat_beq, nat_eq, if◌then◌else◌, contains, filter_map, arith, refl, Bool-cases, ◌⊎◌,
  inl, inr, list_eq,
}
use zgalaxy_rs.Prelude.Bytes.{Bytes, be_bytes, of_be_bytes}
use zgalaxy_rs.Prelude.Text.{Text}
use zgalaxy_rs.Prelude.Outcome.{Outcome, ok, err, panic}
use zgalaxy_rs.Prelude.Dict
use zgalaxy_rs.Controller.IpText.{IpText}
use zgalaxy_rs.Controller.Types.{IpAssignmentPool, Members, Controller}
use zgalaxy_rs.Controller.Pools.{all_assignments, members_of}

-- `hmac.finalize()` for a key and the bytes fed to it. HMAC takes a key of any length.
abbrev pub Hmac : Type 0
Hmac = Bytes → Bytes → Bytes

-- Either an address, no address, or a panic.
abbrev pub Probe : Type 0
Probe = Outcome (Unit {0}) (Option ℕ)

module _ (hmac : Hmac) where
  abbrev pub rid : ℕ → ℕ → Text → Text → Bytes → ℕ → ℕ
  rid prefix_start prefix_end nwid member_id secret_key dad_counter = of_be_bytes (
      take 16 (
        hmac secret_key (
          be_bytes 16 prefix_start
          ++ (be_bytes 16 prefix_end ++ (nwid ++ (member_id ++ be_bytes 4 dad_counter))))))

  -- `prefix_start.checked_add(offset)`
  abbrev pub checked_add : ℕ → ℕ → Option ℕ
  checked_add a b = if ltb (a + b) (2 ^ 128) then some (a + b) else none

  unfoldable pub compute_rfc7217_opaque_ip : ℕ → ℕ → Text → Text → Bytes → ℕ → Probe
  compute_rfc7217_opaque_ip prefix_start prefix_end nwid member_id secret_key dad_counter =
      let range_size = prefix_end - prefix_start in
      let value = rid prefix_start prefix_end nwid member_id secret_key dad_counter in
      if ltb prefix_end prefix_start
      then ok none
      else if nat_beq range_size 0
      then ok (some prefix_start)
      else if nat_beq (range_size + 1) (2 ^ 128)
      then panic
      else ok (checked_add prefix_start (value % (range_size + 1)))

  -- A probe of a pool other than the whole address space gives an address of the pool, and a pool with
  -- its ends the wrong way round gives none.
  pub compute_rfc7217_opaque_ip_lem :
      (a b : ℕ) (nwid member_id : Text) (key : Bytes) (dad : ℕ)
      → b < 2 ^ 128
      → (a ≤ b
          → b - a + 1 < 2 ^ 128
          → (c : ℕ) × (compute_rfc7217_opaque_ip a b nwid member_id key dad ≡ ok (some c))
            × (a ≤ c)
            × (c ≤ b))
        × (b < a → compute_rfc7217_opaque_ip a b nwid member_id key dad ≡ ok none)
        × ((a ≡ 0)
            → (b ≡ 2 ^ 128 - 1)
            → compute_rfc7217_opaque_ip a b nwid member_id key dad ≡ panic)
  unfolding compute_rfc7217_opaque_ip
  compute_rfc7217_opaque_ip_lem a b nwid member_id key dad hb = (
    λ le small. elim (Bool-cases (nat_beq (b - a) 0)) [
      | inl same ↦ (a, ground arith, ground arith, ground arith)
      | inr wide ↦
          (a + rid a b nwid member_id key dad % (b - a + 1), ground arith, omega arith, omega arith)
    ],
    λ lt. ground arith,
    λ za zb. ground arith,
  )

-- `for dad_counter in 0..256`, from `dad` on: the first address that is not used.
module _ (hmac : Hmac) (start end : ℕ) (nwid member_id : Text) (secret_key : Bytes)
    (used : List ℕ) where
  -- What the loop does with one probe; `rest` is the loop from the next counter on.
  abbrev pub after_probe : Probe → Probe → Probe
  after_probe (ok none) rest = rest
  after_probe (ok (some c)) rest = if contains used c then rest else ok (some c)
  after_probe (err e) rest = err e
  after_probe panic rest = panic

  unfoldable pub dad_loop : ℕ → ℕ → Probe
  unfolding compute_rfc7217_opaque_ip
  dad_loop zero dad = ok none
  dad_loop (suc probes) dad =
      let rest = dad_loop probes (suc dad) in
      after_probe (compute_rfc7217_opaque_ip hmac start end nwid member_id secret_key dad) rest

  -- In a pool other than the whole address space the loop does not panic, and an address that it
  -- returns lies in the pool and is not used.
  pub dad_loop_lem :
      (probes dad : ℕ)
      → start ≤ end
      → end < 2 ^ 128
      → end - start + 1 < 2 ^ 128
      → (dad_loop probes dad ≡ ok none)
        ⊎ ((c : ℕ) × (dad_loop probes dad ≡ ok (some c))
            × (start ≤ c)
            × (c ≤ end)
            × (contains used c ≡ false))
  unfolding dad_loop
  dad_loop_lem zero dad le fits small = inl refl
  dad_loop_lem (suc probes) dad le fits small =
      let (c, e, lo, hi) =
        (compute_rfc7217_opaque_ip_lem hmac start end nwid member_id secret_key dad fits).0 le
          small in
      rw e (elim (Bool-cases (contains used c)) [
        | inl taken ↦ rw taken (dad_loop_lem probes (suc dad) le fits small)
        | inr free ↦ inr (c, rw free, lo, hi, free)
      ])

module _ (ips : IpText) (hmac : Hmac) where
  open ips use {v6_parse, v6_text}

  abbrev pub used_v6 : {Value : Type 0} → Members Value → List ℕ
  used_v6 m = filter_map v6_parse (all_assignments m)

  unfoldable pub range_of_v6 : IpAssignmentPool → Option (ℕ × ℕ)
  range_of_v6 pool = elim (v6_parse pool.ip_range_start) [
    | none ↦ none
    | some start ↦ elim (v6_parse pool.ip_range_end) [
      | none ↦ none
      | some end ↦ if ltb end start then none else some (start, end)
    ]
  ]

  abbrev pub probe_pool : Text → Text → Bytes → List ℕ → Option (ℕ × ℕ) → Probe
  probe_pool nwid member_id secret_key used none = ok none
  probe_pool nwid member_id secret_key used (some (start, end)) =
      dad_loop hmac start end nwid member_id secret_key used 256 0

  abbrev pub or_next : Probe → Outcome (Unit {0}) (Option Text) → Outcome (Unit {0}) (Option Text)
  or_next (ok none) rest = rest
  or_next (ok (some c)) rest = ok (some (v6_text c))
  or_next (err e) rest = err e
  or_next panic rest = panic

  unfoldable pub probe_pools :
      Text → Text → Bytes → List ℕ → List IpAssignmentPool → Outcome (Unit {0}) (Option Text)
  unfolding range_of_v6 dad_loop
  probe_pools nwid member_id secret_key used [] = ok none
  probe_pools nwid member_id secret_key used (pool ∷ pools) =
      let rest = probe_pools nwid member_id secret_key used pools in
      or_next (probe_pool nwid member_id secret_key used (range_of_v6 pool)) rest

  -- `secret_key` is `self.identity.secret_key_bytes()`.
  unfoldable pub next_free_ipv6 :
      {Value : Type 0}
      → Controller Value
      → Bytes
      → Text
      → Text
      → List IpAssignmentPool
      → Outcome (Unit {0}) (Option Text)
  unfolding probe_pools all_assignments
  next_free_ipv6 ctrl secret_key nwid member_id pools =
      probe_pools nwid member_id secret_key (used_v6 (members_of (Dict.get ctrl.members nwid)))
        pools
