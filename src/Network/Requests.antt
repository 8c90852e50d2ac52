-- ===== src/Network/Requests.antt =====
-- The methods of `NetworkManager` as one step: what its callers may ask, and what each request does.
use zgalaxy_rs.Prelude.Text.{Text}
use zgalaxy_rs.Prelude.Outcome.{Outcome, ok, err, panic}
use zgalaxy_rs.Network.Types.{Network, NetworkSettingsUpdate, Sha256}
use zgalaxy_rs.Network.Disk.{NetworkText, SaveResults, RemoveResults}
use zgalaxy_rs.Network.Manager.{
  NetworkManager, NetworkError, join, update_network, disconnect, connect, update_settings, leave,
}

-- What a user or the controller asks of the manager.
pub data Request : Type 0 where
  join_network : Text → Request
  configure : Network → Request
  disconnect_from connect_to leave_network : Text → Request
  change : Text → NetworkSettingsUpdate → Request

-- A join that fails changes nothing.
abbrev pub after_join :
    {Content : Type 0}
    → NetworkManager Content
    → Outcome NetworkError (Network × NetworkManager Content)
    → NetworkManager Content
after_join nm (ok r) = r.1
after_join nm (err e) = nm
after_join nm panic = nm

module _ (codec : NetworkText) (sha : Sha256) where
  open codec use {Content}

  -- One request, with the results of its file operations.
  abbrev pub perform_with :
      SaveResults → RemoveResults → Request → NetworkManager Content → NetworkManager Content
  perform_with io gone (join_network nwid) nm = after_join nm (join codec sha nm nwid io)
  perform_with io gone (configure net) nm = update_network codec sha nm net io
  perform_with io gone (disconnect_from nwid) nm = (disconnect codec sha nm nwid io).0
  perform_with io gone (connect_to nwid) nm = (connect codec sha nm nwid io).0
  perform_with io gone (leave_network nwid) nm = (leave codec sha nm nwid gone).0
  perform_with io gone (change nwid update) nm = (update_settings codec sha nm nwid update io).0
