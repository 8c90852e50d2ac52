-- ===== src/Network/Restart.antt =====
-- A restart of the node: `load_from_disk` finds what the methods of `NetworkManager` have saved.
use zgalaxy_rs.Prelude.{
  ◌≡◌, ◌≢◌, refl, sym, ap, subst, ◌∙◌, true, Option, none, some, List, [], ◌∷◌, All, nat_eq,
  list_eq, list_beq_iff, arith, if◌then◌else◌, Option-cases, inl, inr, some_inj,
}
use zgalaxy_rs.Prelude.Text.{Text}
use zgalaxy_rs.Prelude.Outcome.{Outcome, ok, err, panic}
use zgalaxy_rs.Prelude.Dict
use zgalaxy_rs.Prelude.Dict.{Dict}
use zgalaxy_rs.Network.Types.{Network, Sha256, derive_mac, requesting_configuration, disconnected}
use zgalaxy_rs.Network.Disk.{
  NetworkText, LoadResults, has_extension, is_nwid, load_file, load_json, load_conf, restore,
}
use zgalaxy_rs.Network.Manager.{
  NetworkManager, NetworkError, clean_nwid, join, update_network, disconnect, connect,
  update_settings, node_of, load_from_disk, apply_settings, disconnected_network, connected_network,
}
use zgalaxy_rs.Network.Requests.{
  Request, join_network, configure, disconnect_from, connect_to, leave_network, change, after_join,
  perform_with,
}
use zgalaxy_rs.Network.Synced.{
  IsClean, IsSynced, Agree, Known, saved, removed, store-IsSynced, modify-IsSynced, leave-IsSynced,
  join-IsSynced,
}

-- A network that is stored is under an id of 16 lower-case hexadecimal digits.
abbrev pub IsProper : Request → Type 0
IsProper (configure net) = IsClean net.nwid
IsProper _ = Unit {0}

-- Every file operation works.
abbrev pub readable : LoadResults
readable = record { exists = true; opened = true; listed = true; readable = λ _. true }

-- A network after a restart: it waits for its configuration where it is connected, and is
-- disconnected where not; an empty MAC is derived anew; the rest is as it was.
abbrev pub restarted : Sha256 → Text → Network → Network
restarted sha node n = record n {
  status = if n.connected then requesting_configuration else disconnected;
  mac = elim n.mac [ [] ↦ derive_mac sha n.nwid node | c ∷ cs ↦ c ∷ cs ];
}

is_nwid-has_extension : (t : Text) → is_nwid t ≡ true → has_extension t ≡ true
is_nwid-has_extension [] h = absurd (ground arith)
is_nwid-has_extension (c ∷ t) h = refl

module _ (codec : NetworkText) (sha : Sha256) where
  open codec use {Content, to_string_pretty, from_str}

  abbrev perform : Request → NetworkManager Content → NetworkManager Content
  perform = perform_with codec sha saved removed

  unfoldable pub perform_all : List Request → NetworkManager Content → NetworkManager Content
  perform_all [] nm = nm
  perform_all (r ∷ rs) nm = perform_all rs (perform r nm)

  -- A manager in a directory without files.
  abbrev pub fresh : Text → NetworkManager Content
  fresh node = record {
    networks = [];
    node_address = some node;
    has_working_dir = true;
    disk = record { json = []; tmp = []; conf = [] };
  }

  -- The node stops, and starts again on the same directory.
  unfoldable pub restart : NetworkManager Content → NetworkManager Content
  unfolding load_from_disk
  restart nm = (load_from_disk codec sha (record nm { networks = [] }) readable).0

  -- Every file holds a network of its own name.
  abbrev IsOwned : Dict Text Content → Type 0
  IsOwned files =
      (k : Text) (t : Content)
      → Dict.get files k ≡ some t
      → (n : Network) × (from_str t ≡ some n) × (n.nwid ≡ k) × (has_extension k ≡ true)

  restore-restarted : (node : Text) (n : Network) → restore codec sha node n ≡ restarted sha node n
  unfolding restore
  restore-restarted node n = refl

  -- The network in a file, as it is after a restart.
  abbrev reloaded : Text → Option Network → Option Content → Option Network
  reloaded node old none = old
  reloaded node old (some t) = elim (from_str t) [
    | none ↦ old
    | some n ↦ some (restore codec sha node n)
  ]

  get-load_json :
      (node : Text) (files : Dict Text Content) (networks : Dict Text Network) (k : Text)
      → Dict.Unique files
      → IsOwned files
      → Dict.get (load_json codec sha node (λ _. true) files networks) k
        ≡ reloaded node (Dict.get networks k) (Dict.get files k)
  unfolding load_json load_file Dict.get
  get-load_json node [] networks k u owned = refl
  get-load_json node ((j, t) ∷ files) networks k u owned =
      let (n, read, own, named) = owned j t (ground (arith, list_beq_iff j j)) in
      let rest_owned : IsOwned files = λ i v h. owned i v (ground (arith, list_beq_iff j i)) in
      ground (
        arith,
        get-load_json node files (Dict.insert networks n.nwid (restore codec sha node n)) k u.1
            rest_owned,
        Dict.get-insert networks n.nwid (restore codec sha node n) k,
        list_beq_iff j k,
      )

  load_conf-Known :
      (node : Text) (networks : Dict Text Network) (ss : List Text)
      → All (Known codec networks) ss
      → load_conf sha node ss networks ≡ networks
  unfolding load_conf clean_nwid
  load_conf-Known node networks [] h = refl
  load_conf-Known node networks (s ∷ ss) h = ground (arith, load_conf-Known node networks ss h.1)

  module _ (total : (n : Network) → to_string_pretty n ≢ none) where
    after_join-IsSynced :
        (nm : NetworkManager Content) (o : Outcome NetworkError (Network × NetworkManager Content))
        → IsSynced codec nm
        → ((n : Network) (nm' : NetworkManager Content) → o ≡ ok (n, nm') → IsSynced codec nm')
        → IsSynced codec (after_join nm o)
    after_join-IsSynced nm (ok (n, nm')) s h = h n nm' refl
    after_join-IsSynced nm (err e) s h = s
    after_join-IsSynced nm panic s h = s

    perform-IsSynced :
        (r : Request) (nm : NetworkManager Content)
        → IsProper r
        → IsSynced codec nm
        → IsSynced codec (perform r nm)
    unfolding update_network disconnect connect update_settings disconnected_network
        connected_network apply_settings
    perform-IsSynced (join_network nwid) nm p s =
        after_join-IsSynced nm (join codec sha nm nwid saved) s
          (λ n nm' h. join-IsSynced codec sha total nm nwid n nm' s h)
    perform-IsSynced (configure net) nm p s = store-IsSynced codec sha total nm net s p
    perform-IsSynced (disconnect_from nwid) nm p s =
        modify-IsSynced codec sha total disconnected_network nm nwid (λ n. refl) s
    perform-IsSynced (connect_to nwid) nm p s =
        modify-IsSynced codec sha total connected_network nm nwid (λ n. refl) s
    perform-IsSynced (leave_network nwid) nm p s = leave-IsSynced codec sha total nm nwid s
    perform-IsSynced (change nwid update) nm p s =
        modify-IsSynced codec sha total (apply_settings update) nm nwid (λ n. refl) s

    perform_all-IsSynced :
        (rs : List Request) (nm : NetworkManager Content)
        → All IsProper rs
        → IsSynced codec nm
        → IsSynced codec (perform_all rs nm)
    unfolding perform_all
    perform_all-IsSynced [] nm p s = s
    perform_all-IsSynced (r ∷ rs) nm p s =
        perform_all-IsSynced rs (perform r nm) p.1 (perform-IsSynced r nm p.0 s)

    fresh-IsSynced : (node : Text) → IsSynced codec (fresh node)
    unfolding Dict.get
    fresh-IsSynced node = record { dir = refl; agree = λ k. refl; once = tt; confs = tt }

    IsSynced-IsOwned : (nm : NetworkManager Content) → IsSynced codec nm → IsOwned nm.disk.json
    IsSynced-IsOwned nm s k t file = elim (Option-cases (Dict.get nm.networks k)) [
      | inl absent ↦ ground (arith, s.agree k)
      | inr (n, found) ↦
          let (own, clean, (t', file', read)) =
            subst (λ o. Agree codec k o (Dict.get nm.disk.json k)) found (s.agree k) in
          (
            n,
            ap from_str (some_inj (sym file ∙ file')) ∙ read,
            own,
            is_nwid-has_extension k clean.1,
          )
    ]

    -- The first pass alone.
    get-loaded :
        (nm : NetworkManager Content) (k : Text)
        → IsSynced codec nm
        → Dict.get (load_json codec sha (node_of nm) (λ _. true) nm.disk.json []) k
          ≡ elim (Dict.get nm.networks k) [
            | none ↦ none
            | some n ↦ some (restore codec sha (node_of nm) n)
          ]
    unfolding Dict.get
    get-loaded nm k s = ground (
      arith,
      get-load_json (node_of nm) nm.disk.json [] k s.once (IsSynced-IsOwned nm s),
      s.agree k,
    )

    loaded-Known :
        (nm : NetworkManager Content) (ss : List Text)
        → IsSynced codec nm
        → All (Known codec nm.networks) ss
        → All (Known codec (load_json codec sha (node_of nm) (λ _. true) nm.disk.json [])) ss
    unfolding Dict.contains_key
    loaded-Known nm [] s h = tt
    loaded-Known nm (k ∷ ss) s h =
        ((h.0.0, ground (arith, get-loaded nm k s)), loaded-Known nm ss s h.1)

    restart-IsSynced :
        (nm : NetworkManager Content) (k : Text)
        → IsSynced codec nm
        → Dict.get (restart nm).networks k ≡ elim (Dict.get nm.networks k) [
          | none ↦ none
          | some n ↦ some (restore codec sha (node_of nm) n)
        ]
    unfolding restart load_from_disk
    restart-IsSynced nm k s =
        ap (λ m. Dict.get m k)
          (load_conf-Known (node_of nm) _ nm.disk.conf (loaded-Known nm nm.disk.conf s s.confs))
        ∙ get-loaded nm k s

    -- After any sequence of requests to a manager that starts in an empty directory, where what a
    -- configuration stores is under an id of 16 lower-case hexadecimal digits, and while every file
    -- operation works and every network can be printed, a restart finds the same networks: each waits
    -- for its configuration if it was connected, and is disconnected if not; a MAC that was empty is
    -- derived anew; the other fields are as they were.
    pub restart-perform_all :
        (node : Text) (rs : List Request) (k : Text)
        → All IsProper rs
        → let nm = perform_all rs (fresh node) in
          Dict.get (restart nm).networks k ≡ elim (Dict.get nm.networks k) [
            | none ↦ none
            | some n ↦ some (restarted sha (node_of nm) n)
          ]
    restart-perform_all node rs k p =
        let nm = perform_all rs (fresh node) in
        let synced = perform_all-IsSynced rs (fresh node) p (fresh-IsSynced node) in
        elim (Option-cases (Dict.get nm.networks k)) [
          | inl e ↦ ground (arith, restart-IsSynced nm k synced)
          | inr (n, e) ↦
              ground (arith, restart-IsSynced nm k synced, restore-restarted (node_of nm) n)
        ]
