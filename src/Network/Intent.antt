-- ===== src/Network/Intent.antt =====
-- The connection intent of a network against its status, over all the methods of `NetworkManager`.
use zgalaxy_rs.Prelude.{
  ◌≡◌, refl, not, some, nat_eq, list_eq, arith, Option-cases, Bool-cases, inl, inr,
}
use zgalaxy_rs.Prelude.Text.{Text}
use zgalaxy_rs.Prelude.Dict
use zgalaxy_rs.Network.Types.{Network, NetworkSettingsUpdate, Sha256, new_network}
use zgalaxy_rs.Network.Disk.{NetworkText, SaveResults, RemoveResults, is_nwid}
use zgalaxy_rs.Network.Manager.{
  NetworkManager, clean_nwid, store, modify, join, joined, update_network, disconnect, connect,
  update_settings, leave, apply_settings, disconnected_network, connected_network, rejoin,
  is_disconnected,
}
use zgalaxy_rs.Network.Requests.{
  Request, join_network, configure, disconnect_from, connect_to, leave_network, change, after_join,
  perform_with,
}

-- The status is `Disconnected` exactly if the user does not want the network connected.
abbrev pub IsConsistent : Network → Type 0
IsConsistent n = n.connected ≡ not (is_disconnected n.status)

abbrev pub AllConsistent : {Content : Type 0} → NetworkManager Content → Type 0
AllConsistent nm = (k : Text) (n : Network) → Dict.get nm.networks k ≡ some n → IsConsistent n

-- A configuration from the controller keeps the two together.
abbrev pub IsConsistentRequest : Request → Type 0
IsConsistentRequest (configure net) = IsConsistent net
IsConsistentRequest _ = Unit {0}

module _ (codec : NetworkText) (sha : Sha256) where
  open codec use {Content}

  store-Consistent :
      (nm : NetworkManager Content) (key : Text) (net : Network) (io : SaveResults)
      → AllConsistent nm
      → IsConsistent net
      → AllConsistent (store codec sha nm key net io)
  unfolding store
  store-Consistent nm key net io h c k n found =
      ground (arith, Dict.get-insert nm.networks key net k, h k n)

  modify-Consistent :
      (f : Network → Network) (nm : NetworkManager Content) (nwid : Text) (io : SaveResults)
      → ((n : Network) → IsConsistent n → IsConsistent (f n))
      → AllConsistent nm
      → AllConsistent (modify codec sha f nm nwid io).0
  unfolding modify
  modify-Consistent f nm nwid io keeps h =
      elim (Option-cases (Dict.get nm.networks (clean_nwid nwid))) [
        | inl absent ↦ rw (modify, absent) h
        | inr (n, found) ↦
            rw (modify, found)
              (store-Consistent nm (clean_nwid nwid) (f n) io h
                (keeps n (h (clean_nwid nwid) n found)))
      ]

  leave-Consistent :
      (nm : NetworkManager Content) (nwid : Text) (gone : RemoveResults)
      → AllConsistent nm
      → AllConsistent (leave codec sha nm nwid gone).0
  unfolding leave
  leave-Consistent nm nwid gone h k n found =
      ground (arith, Dict.get-remove nm.networks (clean_nwid nwid) k, h k n)

  rejoin-Consistent : (n : Network) → IsConsistent (rejoin n)
  unfolding rejoin
  rejoin-Consistent n = ground arith

  settings-Consistent :
      (update : NetworkSettingsUpdate) (n : Network)
      → IsConsistent n
      → IsConsistent (apply_settings update n)
  unfolding apply_settings
  settings-Consistent update n h = ground arith

  new_network-Consistent : (nwid node : Text) → IsConsistent (new_network sha nwid node)
  unfolding new_network
  new_network-Consistent nwid node = refl

  joined-Consistent :
      (nm : NetworkManager Content) (clean : Text) → IsConsistent (joined codec sha nm clean)
  joined-Consistent nm clean = elim (Option-cases (Dict.get nm.networks clean)) [
    | inl absent ↦ rw (joined, absent) (new_network-Consistent clean _)
    | inr (n, found) ↦ rw (joined, found) (rejoin-Consistent n)
  ]

  join-Consistent :
      (nm : NetworkManager Content) (nwid : Text) (io : SaveResults)
      → AllConsistent nm
      → AllConsistent (after_join nm (join codec sha nm nwid io))
  unfolding join
  join-Consistent nm nwid io h = elim (Bool-cases (is_nwid (clean_nwid nwid))) [
    | inl valid ↦
        rw (join, valid)
          (store-Consistent nm (clean_nwid nwid) (joined codec sha nm (clean_nwid nwid)) io h
            (joined-Consistent nm (clean_nwid nwid)))
    | inr invalid ↦ rw (join, invalid) h
  ]

  -- Whatever the file operations do, no request breaks the agreement of intent and status: a network
  -- is disconnected exactly if its user does not want it connected. A configuration that is stored has
  -- to agree itself.
  pub perform_with-AllConsistent :
      (io : SaveResults) (gone : RemoveResults) (r : Request) (nm : NetworkManager Content)
      → IsConsistentRequest r
      → AllConsistent nm
      → AllConsistent (perform_with codec sha io gone r nm)
  unfolding update_network disconnect connect update_settings disconnected_network connected_network
  perform_with-AllConsistent io gone (join_network nwid) nm p h = join-Consistent nm nwid io h
  perform_with-AllConsistent io gone (configure net) nm p h =
      store-Consistent nm net.nwid net io h p
  perform_with-AllConsistent io gone (disconnect_from nwid) nm p h =
      modify-Consistent disconnected_network nm nwid io (λ n c. refl) h
  perform_with-AllConsistent io gone (connect_to nwid) nm p h =
      modify-Consistent connected_network nm nwid io (λ n c. refl) h
  perform_with-AllConsistent io gone (leave_network nwid) nm p h = leave-Consistent nm nwid gone h
  perform_with-AllConsistent io gone (change nwid update) nm p h =
      modify-Consistent (apply_settings update) nm nwid io (settings-Consistent update) h
