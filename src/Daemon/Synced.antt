-- ===== src/Daemon/Synced.antt =====
-- The interface follows the network's entry, through any responses of the controller.
use zgalaxy_rs.Prelude.{◌≡◌, ◌&&◌, not, List, contains, list_eq, nat_eq}
use zgalaxy_rs.Prelude.Text.{Text}
use zgalaxy_rs.Json.{Json}
use zgalaxy_rs.Network.Types.{Network}
use zgalaxy_rs.Daemon.Config.{is_ok, targets, is_default}
use zgalaxy_rs.Daemon.Interface.{routes}

-- The interface has the entry's addresses and routes if the entry is authorized, and none of them
-- otherwise; a default route only if the entry allows it.
pub record IsSynced (net : Network) (ips rs : List Text) : Type 0 where
  pub has_addresses :
      (ip : Text) → contains ips ip ≡ (contains net.assigned_addresses ip && is_ok net.status)
  pub has_routes :
      (t : Text)
      → contains rs t ≡ (
          contains (targets net.routes) t
          && (is_ok net.status && not (is_default t && not net.allow_default)))
