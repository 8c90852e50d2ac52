-- ===== src/Tests/Interfaces.antt =====
-- The interface after a response.
use zgalaxy_rs.Prelude.{true, none, some, [], ◌∷◌, list_eq, nat_eq}
use zgalaxy_rs.Prelude.Text.{codes}
use zgalaxy_rs.Prelude.Dict
use zgalaxy_rs.Network.Types.{Network, new_network}
use zgalaxy_rs.Daemon.Config.{ConfigJson}
use zgalaxy_rs.Tests.Crates.{json, Value, object, flag, text, sha}

-- A text is read as the array of itself.
abbrev reader : ConfigJson json
reader = record { as_array = λ v. some (v ∷ []); route_of = λ v. none }

abbrev config : Value
config = (
  object,
  (codes "authorized", flag true) ∷ (codes "ipAssignments", text (codes "10.0.0.2")) ∷ [],
)

abbrev old : Network
unfolding new_network
old = new_network sha (codes "8056c2e21c000001") (codes "a1b2c3d4e5")
