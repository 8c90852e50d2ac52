-- ===== src/Tests/Networks.antt =====
-- The networks of a node over a concrete sequence of requests.
use zgalaxy_rs.Prelude.{◌≡◌, ◌≢◌, true, false, none, some, List, [], ◌∷◌, nat_eq, list_eq, arith}
use zgalaxy_rs.Prelude.Text.{Text, codes}
use zgalaxy_rs.Prelude.Dict
use zgalaxy_rs.Network.Types.{Network, NetworkSettingsUpdate}
use zgalaxy_rs.Network.Disk.{SaveResults, RemoveResults}
use zgalaxy_rs.Network.Manager.{node_of}
use zgalaxy_rs.Network.Requests.{
  Request, join_network, disconnect_from, leave_network, perform_with,
}
use zgalaxy_rs.Network.Restart.{restarted, perform_all, fresh, restart, restart-perform_all}
use zgalaxy_rs.Network.Intent.{AllConsistent, perform_with-AllConsistent}
use zgalaxy_rs.Tests.Crates.{codec, sha}

abbrev first : Text
first = codes "8056c2e21c000001"

abbrev requests : List Request
requests =
    join_network (codes " 8056C2E21C000001 ")
    ∷ join_network (codes "ffffffffffffffff")
    ∷ disconnect_from first
    ∷ leave_network (codes "ffffffffffffffff")
    ∷ []

abbrev node : Text
node = codes "a1b2c3d4e5"

prints : (n : Network) → codec.to_string_pretty n ≢ none
prints n h = ground arith

restart-perform_all_example :
    Dict.get
      (restart codec sha (perform_all codec sha requests (fresh codec sha node))).networks
      first
    ≡ elim (Dict.get (perform_all codec sha requests (fresh codec sha node)).networks first) [
      | none ↦ none
      | some n ↦
          some (restarted sha (node_of (perform_all codec sha requests (fresh codec sha node))) n)
    ]
restart-perform_all_example =
    restart-perform_all codec sha prints node requests first (tt, (tt, (tt, (tt, tt))))

abbrev half_saved : SaveResults
half_saved = record { dir_made = true; tmp_written = true; renamed = false; conf_written = true }

abbrev half_removed : RemoveResults
half_removed = record { json_removed = false; conf_removed = true }

abbrev off : NetworkSettingsUpdate
off = record {
  allow_managed = none;
  allow_global = some true;
  allow_default = none;
  allow_dns = none;
  connected = some false;
}

fresh-AllConsistent : AllConsistent (fresh codec sha node)
unfolding Dict.get
fresh-AllConsistent k n h = ground arith

perform_with-AllConsistent_example :
    AllConsistent
      (perform_with codec sha half_saved half_removed (join_network first) (fresh codec sha node))
perform_with-AllConsistent_example =
    perform_with-AllConsistent codec sha half_saved half_removed (join_network first)
      (fresh codec sha node) tt fresh-AllConsistent
