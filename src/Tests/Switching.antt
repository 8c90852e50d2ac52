-- ===== src/Tests/Switching.antt =====
-- The switch at a concrete table and frame.
use zgalaxy_rs.Prelude.{◌≡◌, refl, none, List, [], ◌∷◌, ◌++◌, list_eq, nat_eq}
use zgalaxy_rs.Prelude.Bytes.{Bytes}
use zgalaxy_rs.Prelude.Dict
use zgalaxy_rs.Net.{SocketAddr, v4}
use zgalaxy_rs.L2Switch.{Mac, SwitchEntry, Table, new}
use zgalaxy_rs.L2Switch.Refine.{Op, learn_at, remove_at, evict_at, run, replay, run_refines}

abbrev mac_a : Mac
mac_a = 2 ∷ 0 ∷ 0 ∷ 0 ∷ 0 ∷ 1 ∷ []

abbrev mac_b : Mac
mac_b = 2 ∷ 0 ∷ 0 ∷ 0 ∷ 0 ∷ 2 ∷ []

abbrev here : SocketAddr
here = record { ip = v4 0x0a000001; port = 9993 }

abbrev there : SocketAddr
there = record { ip = v4 0x0a000002; port = 9993 }

abbrev entry_a : SwitchEntry
entry_a = record { endpoint = here; last_seen = 100 }

abbrev table : Table
table = (mac_a, entry_a) ∷ (mac_b, record { endpoint = there; last_seen = 50 }) ∷ []

table-Unique : Dict.Unique table
unfolding Dict.get
table-Unique = (refl, (refl, tt))

abbrev frame : Bytes
frame = mac_a ++ (mac_b ++ (8 ∷ 0 ∷ 69 ∷ []))

abbrev ops : List Op
ops = learn_at mac_a here 1 ∷ learn_at mac_b there 2 ∷ remove_at here ∷ evict_at 100 99 ∷ []

run_refines_example : Dict.Unique (run ops new) × (Dict.get (run ops new) ≡ replay ops (λ _. none))
run_refines_example = run_refines ops
