-- ===== src/Tests/Loading.antt =====
-- New network ids and loaded tables.
use zgalaxy_rs.Prelude.{ℕ, true, false, Option, none, some, List, [], ◌∷◌, list_eq, nat_eq, arith}
use zgalaxy_rs.Prelude.Text.{codes}
use zgalaxy_rs.Prelude.Dict.{get-nil}
use zgalaxy_rs.Controller.Types.{Controller, NetworkConfig, Members}
use zgalaxy_rs.Controller.Ids.{Search, next_network_id, next_network_id-Search}
use zgalaxy_rs.Controller.Load.{RecordJson, File, IsKeyed, init, init-IsKeyed}
use zgalaxy_rs.Tests.Crates.{Value}
use zgalaxy_rs.Tests.Joining.{ctrl, net}

-- The first number gives the id of the network that there is.
next_network_id-Search_example : Search ctrl (1 ∷ 2 ∷ []) (next_network_id ctrl (1 ∷ 2 ∷ []))
next_network_id-Search_example = next_network_id-Search ctrl (1 ∷ 2 ∷ [])

-- Every content reads as the same network.
abbrev serde : RecordJson Value ℕ
serde = record { network_of = λ n. some net; member_of = λ n. none }

abbrev empty : Controller Value
empty = record { controller_address = codes "8056c2e21c"; networks = []; members = [] }

abbrev files : Option (List (File ℕ))
files =
    some (
      record { is_json = true; content = some 3 } ∷ record { is_json = false; content = none } ∷ [])

empty-IsKeyed : IsKeyed serde empty
empty-IsKeyed = record {
  networks = λ k v e. absurd (ground (arith, get-nil {V = NetworkConfig Value} k));
  members = λ n m e. absurd (ground (arith, get-nil {V = Members Value} n));
}

init-IsKeyed_example : IsKeyed serde (init serde (λ nwid. some []) files empty)
init-IsKeyed_example = init-IsKeyed serde (λ nwid. some []) files empty empty-IsKeyed
