-- ===== src/L2Switch/Table.antt =====
-- What each method does to the table, seen through `resolve` and `entry_count`.
use zgalaxy_rs.Prelude.{
  ℕ, ◌-◌, ◌+◌, ◌≡◌, ◌<◌, ◌↔◌, [], ◌∷◌, suc, Bool, not, none, some, length, leb, list_eq,
  if◌then◌else◌, ◌==◌, arith, nat_eq,
}
use zgalaxy_rs.Prelude.Dict
use zgalaxy_rs.Net.{SocketAddr, socket_eq, socket_beq}
use zgalaxy_rs.L2Switch.{
  Mac, SwitchEntry, Table, learn, resolve, entry_count, remove_endpoint, evict_stale, stays,
  is_fresh,
}

-- In a table with one entry for each MAC, learning a MAC binds it, moves it if it was bound elsewhere, touches no other MAC, keeps one entry
-- for each MAC, and adds an entry exactly for an unknown MAC.
pub resolve-learn :
    (t : Table) (mac : Mac) (ep : SocketAddr) (now : ℕ) (other : Mac)
    → Dict.Unique t
    → (resolve (learn t mac ep now) other ≡ (if mac == other then some ep else resolve t other))
      × Dict.Unique (learn t mac ep now)
      × (entry_count (learn t mac ep now)
          ≡ elim (resolve t mac) [ none ↦ entry_count t + 1 | some _ ↦ entry_count t ])
unfolding resolve learn entry_count
resolve-learn t mac ep now other u =
    let e : SwitchEntry = record { endpoint = ep; last_seen = now } in
    (
      ground (arith, Dict.get-insert t mac e other),
      Dict.insert-Unique t mac e u,
      ground (arith, Dict.length-insert t mac e),
    )

-- How many entries of the table satisfy a test.
pub count_entries : (Mac → SwitchEntry → Bool) → Table → ℕ
count_entries p [] = 0
count_entries p ((mac, e) ∷ t) = if p mac e then suc (count_entries p t) else count_entries p t

retain_sum :
    (p q : Mac → SwitchEntry → Bool) (t : Table)
    → ((mac : Mac) (e : SwitchEntry) → q mac e ≡ not (p mac e))
    → length (Dict.retain p t) + count_entries q t ≡ length t
unfolding Dict.retain count_entries
retain_sum p q [] h = omega arith
retain_sum p q ((mac, e) ∷ t) h = ground (arith, h mac e, retain_sum p q t h)

-- The entries that `retain` drops are those that satisfy the opposite test.
length-retain :
    (p q : Mac → SwitchEntry → Bool) (t : Table)
    → ((mac : Mac) (e : SwitchEntry) → q mac e ≡ not (p mac e))
    → length t - length (Dict.retain p t) ≡ count_entries q t
length-retain p q t h = omega (arith, retain_sum p q t h)

-- In a table with one entry for each MAC, after an endpoint is removed exactly the MACs that were bound to it are unknown and all others
-- resolve as before, one entry stays for each MAC, and the result is the number of entries that were
-- bound to the endpoint.
pub resolve-remove_endpoint :
    (t : Table) (ep : SocketAddr) (mac : Mac)
    → Dict.Unique t
    → (resolve (remove_endpoint t ep).0 mac
        ≡ elim (resolve t mac) [ none ↦ none | some e ↦ if socket_beq e ep then none else some e ])
      × Dict.Unique (remove_endpoint t ep).0
      × ((remove_endpoint t ep).1 ≡ count_entries (λ _ e. socket_beq e.endpoint ep) t)
unfolding resolve remove_endpoint
resolve-remove_endpoint t ep mac u = (
  ground (arith, Dict.get-retain (stays ep) t mac u),
  Dict.retain-Unique (stays ep) t u,
  length-retain (stays ep) (λ _ e. socket_beq e.endpoint ep) t (λ m e. ground arith),
)

-- In a table with one entry for each MAC, eviction keeps exactly the entries younger than the limit, as they were, one for each MAC, and
-- returns the number of the others.
pub resolve-evict_stale :
    (t : Table) (now max_age : ℕ) (mac : Mac) (e : SwitchEntry)
    → Dict.Unique t
    → ((Dict.get (evict_stale t now max_age).0 mac ≡ some e)
        ↔ ((Dict.get t mac ≡ some e) × (now - e.last_seen < max_age)))
      × Dict.Unique (evict_stale t now max_age).0
      × ((evict_stale t now max_age).1 ≡ count_entries (λ _ x. leb max_age (now - x.last_seen)) t)
unfolding evict_stale
resolve-evict_stale t now max_age mac e u = (
  ground (arith, Dict.get-retain (is_fresh now max_age) t mac u),
  Dict.retain-Unique (is_fresh now max_age) t u,
  length-retain (is_fresh now max_age) (λ _ x. leb max_age (now - x.last_seen)) t
      (λ m x. ground arith),
)
