-- ===== src/Network/Synced.antt =====
-- `NetworkManager` and its directory: while every file operation works, the files are the table.
use zgalaxy_rs.Prelude.{
  ℕ, ◌≡◌, ◌≢◌, refl, sym, subst, ◌∙◌, true, not, Option, none, some, List, [], ◌∷◌, all, All,
  nat_eq, list_eq, list_beq, list_beq_iff, if◌then◌else◌, arith, Option-cases, Bool-cases, inl, inr,
  contains, retain,
}
use zgalaxy_rs.Prelude.Text.{Text, trim, to_lowercase, is_hex, lower}
use zgalaxy_rs.Prelude.Text.Laws.{
  IsLowerHex, IsLowerHex-NoSpace, trim-NoSpace, to_lowercase-IsLowerHex,
}
use zgalaxy_rs.Prelude.Outcome.{ok}
use zgalaxy_rs.Prelude.Dict
use zgalaxy_rs.Prelude.Dict.{Dict}
use zgalaxy_rs.Network.Types.{Network, Sha256, new_network}
use zgalaxy_rs.Network.Disk.{
  NetworkText, SaveResults, RemoveResults, persist_network_to_disk, delete_network_from_disk,
  is_nwid, write_json, write_conf,
}
use zgalaxy_rs.Network.Manager.{
  NetworkManager, clean_nwid, store, modify, join, joined, leave, rejoin,
}

-- A network id of 16 lower-case hexadecimal digits.
abbrev pub IsClean : Text → Type 0
IsClean nwid = (clean_nwid nwid ≡ nwid) × (is_nwid nwid ≡ true)

lower-lower : (c : ℕ) → lower (lower c) ≡ lower c
lower-lower c = ground arith

lowercase-IsLowerHex : (t : Text) → all is_hex (to_lowercase t) ≡ true → IsLowerHex (to_lowercase t)
lowercase-IsLowerHex [] h = tt
lowercase-IsLowerHex (c ∷ t) h =
    ((ground arith, lower-lower c), lowercase-IsLowerHex t (ground arith))

pub clean_nwid-IsClean :
    (nwid : Text) → is_nwid (clean_nwid nwid) ≡ true → IsClean (clean_nwid nwid)
unfolding clean_nwid
clean_nwid-IsClean nwid h =
    let hex : IsLowerHex (to_lowercase (trim nwid)) =
      lowercase-IsLowerHex (trim nwid) (ground arith) in
    (
      rw (trim-NoSpace (to_lowercase (trim nwid)) (IsLowerHex-NoSpace _ hex))
          (to_lowercase-IsLowerHex (to_lowercase (trim nwid)) hex),
      h,
    )

-- Every file operation works.
abbrev pub saved : SaveResults
saved = record { dir_made = true; tmp_written = true; renamed = true; conf_written = true }

abbrev pub removed : RemoveResults
removed = record { json_removed = true; conf_removed = true }

module _ (codec : NetworkText) where
  open codec use {Content, to_string_pretty, from_str, from_str-to_string}

  -- What the table and the directory have for one key.
  abbrev pub Agree : Text → Option Network → Option Content → Type 0
  Agree k none file = file ≡ none
  Agree k (some n) file =
      (n.nwid ≡ k) × IsClean k × ((t : Content) × (file ≡ some t) × (from_str t ≡ some n))

  abbrev pub Known : Dict Text Network → Text → Type 0
  Known networks s = IsClean s × (Dict.contains_key networks s ≡ true)

  pub record IsSynced (nm : NetworkManager Content) : Type 0 where
    pub dir : nm.has_working_dir ≡ true
    pub agree : (k : Text) → Agree k (Dict.get nm.networks k) (Dict.get nm.disk.json k)
    pub once : Dict.Unique nm.disk.json
    pub confs : All (Known nm.networks) nm.disk.conf

  Known-insert :
      (networks : Dict Text Network) (key : Text) (net : Network) (ss : List Text)
      → All (Known networks) ss
      → All (Known (Dict.insert networks key net)) ss
  unfolding Dict.contains_key
  Known-insert networks key net [] h = tt
  Known-insert networks key net (s ∷ ss) h = (
    (h.0.0, ground (arith, Dict.get-insert networks key net s)),
    Known-insert networks key net ss h.1,
  )

  Known-remove :
      (networks : Dict Text Network) (key : Text) (ss : List Text)
      → All (Known networks) ss
      → All (Known (Dict.remove networks key)) (retain (λ s. not (list_beq s key)) ss)
  unfolding Dict.contains_key
  Known-remove networks key [] h = tt
  Known-remove networks key (s ∷ ss) h = ground (
    arith,
    Dict.get-remove networks key s,
    list_beq_iff s key,
    list_beq_iff key s,
    Known-remove networks key ss h.1,
  )

  module _ (sha : Sha256) (total : (n : Network) → to_string_pretty n ≢ none) where
    -- What a save leaves in the directory.
    store-disk :
        (nm : NetworkManager Content) (key : Text) (net : Network) (t : Content)
        → nm.has_working_dir ≡ true
        → to_string_pretty net ≡ some t
        → ((store codec sha nm key net saved).disk.json ≡ Dict.insert nm.disk.json net.nwid t)
          × ((store codec sha nm key net saved).disk.conf
              ≡ (if contains nm.disk.conf net.nwid then nm.disk.conf else net.nwid ∷ nm.disk.conf))
    unfolding store persist_network_to_disk write_json write_conf
    store-disk nm key net t dir printed = (ground arith, ground arith)

    store-table :
        (nm : NetworkManager Content) (key : Text) (net : Network)
        → ((store codec sha nm key net saved).networks ≡ Dict.insert nm.networks key net)
          × ((store codec sha nm key net saved).has_working_dir ≡ nm.has_working_dir)
    unfolding store
    store-table nm key net = (refl, refl)

    insert-Agree :
        (nm : NetworkManager Content) (net : Network) (t : Content) (k : Text)
        → IsSynced nm
        → IsClean net.nwid
        → from_str t ≡ some net
        → Agree k
            (Dict.get (Dict.insert nm.networks net.nwid net) k)
            (Dict.get (Dict.insert nm.disk.json net.nwid t) k)
    insert-Agree nm net t k s clean read =
        rw (Dict.get-insert nm.networks net.nwid net k, Dict.get-insert nm.disk.json net.nwid t k)
          elim (Bool-cases (list_beq net.nwid k))
            as (λ _.
              Agree k (if list_beq net.nwid k then some net else Dict.get nm.networks k)
                (if list_beq net.nwid k then some t else Dict.get nm.disk.json k)) [
                  | inl same ↦
                      let own = (list_beq_iff net.nwid k).0 same in
                      rw same (own, subst IsClean own clean, (t, refl, read))
                  | inr other ↦ rw other (s.agree k)
                ]

    insert-confs :
        (nm : NetworkManager Content) (net : Network)
        → IsSynced nm
        → IsClean net.nwid
        → All
            (Known (Dict.insert nm.networks net.nwid net))
            (if contains nm.disk.conf net.nwid then nm.disk.conf else net.nwid ∷ nm.disk.conf)
    unfolding Dict.contains_key
    insert-confs nm net s clean = ground (
      arith,
      Known-insert nm.networks net.nwid net nm.disk.conf s.confs,
      Dict.get-insert nm.networks net.nwid net net.nwid,
      list_beq_iff net.nwid net.nwid,
    )

    pub store-IsSynced :
        (nm : NetworkManager Content) (net : Network)
        → IsSynced nm
        → IsClean net.nwid
        → IsSynced (store codec sha nm net.nwid net saved)
    store-IsSynced nm net s clean = elim (Option-cases (to_string_pretty net)) [
      | inl none_printed ↦ elim (total net none_printed) [ ]
      | inr (t, printed) ↦
          let table = store-table nm net.nwid net in
          let disk = store-disk nm net.nwid net t s.dir printed in
          record {
            dir = table.1 ∙ s.dir;
            agree = λ k.
                rw (table.0, disk.0)
                  (insert-Agree nm net t k s clean (from_str-to_string net t printed));
            once = rw disk.0 (Dict.insert-Unique nm.disk.json net.nwid t s.once);
            confs = rw (table.0, disk.1) (insert-confs nm net s clean);
          }
    ]

    remove-Agree :
        (nm : NetworkManager Content) (key k : Text)
        → IsSynced nm
        → Agree k
            (Dict.get (Dict.remove nm.networks key) k)
            (Dict.get (Dict.remove nm.disk.json key) k)
    remove-Agree nm key k s =
        rw (Dict.get-remove nm.networks key k, Dict.get-remove nm.disk.json key k)
          elim (Bool-cases (list_beq key k))
            as (λ _.
              Agree k (if list_beq key k then none else Dict.get nm.networks k)
                (if list_beq key k then none else Dict.get nm.disk.json k)) [
                  | inl same ↦ rw same refl
                  | inr other ↦ rw other (s.agree k)
                ]

    pub leave-IsSynced :
        (nm : NetworkManager Content) (nwid : Text)
        → IsSynced nm
        → IsSynced (leave codec sha nm nwid removed).0
    unfolding leave delete_network_from_disk
    leave-IsSynced nm nwid s = elim (Option-cases (Dict.get nm.networks (clean_nwid nwid))) [
      | inl absent ↦ rw (leave, absent, Dict.remove-absent nm.networks (clean_nwid nwid) absent) s
      | inr (net, found) ↦
          let here =
            subst (λ o. Agree (clean_nwid nwid) o (Dict.get nm.disk.json (clean_nwid nwid))) found
              (s.agree (clean_nwid nwid)) in
          rw (leave, found, delete_network_from_disk, s.dir)
            (record {
              dir = refl;
              agree = λ k.
                  subst
                    (λ key.
                      Agree k (Dict.get (Dict.remove nm.networks (clean_nwid nwid)) k)
                        (Dict.get (Dict.remove nm.disk.json key) k))
                    (sym here.0) (remove-Agree nm (clean_nwid nwid) k s);
              once = Dict.remove-Unique nm.disk.json net.nwid s.once;
              confs =
                  subst
                    (λ key.
                      All (Known (Dict.remove nm.networks (clean_nwid nwid)))
                        (retain (λ n. not (list_beq n key)) nm.disk.conf))
                    (sym here.0) (Known-remove nm.networks (clean_nwid nwid) nm.disk.conf s.confs);
            })
    ]

    pub modify-IsSynced :
        (f : Network → Network) (nm : NetworkManager Content) (nwid : Text)
        → ((n : Network) → (f n).nwid ≡ n.nwid)
        → IsSynced nm
        → IsSynced (modify codec sha f nm nwid saved).0
    unfolding modify
    modify-IsSynced f nm nwid keeps s =
        elim (Option-cases (Dict.get nm.networks (clean_nwid nwid))) [
          | inl absent ↦ rw (modify, absent) s
          | inr (n, found) ↦
              let here =
                subst (λ o. Agree (clean_nwid nwid) o (Dict.get nm.disk.json (clean_nwid nwid)))
                  found (s.agree (clean_nwid nwid)) in
              let own : (f n).nwid ≡ clean_nwid nwid = keeps n ∙ here.0 in
              rw (modify, found)
                (subst (λ key. IsSynced (store codec sha nm key (f n) saved)) own
                  (store-IsSynced nm (f n) s (subst IsClean (sym own) here.1)))
        ]

    joined-nwid :
        (nm : NetworkManager Content) (clean : Text)
        → IsSynced nm
        → (joined codec sha nm clean).nwid ≡ clean
    unfolding rejoin new_network
    joined-nwid nm clean s = ground (arith, s.agree clean)

    pub join-IsSynced :
        (nm : NetworkManager Content) (nwid : Text) (n : Network) (nm' : NetworkManager Content)
        → IsSynced nm
        → join codec sha nm nwid saved ≡ ok (n, nm')
        → IsSynced nm'
    unfolding join
    join-IsSynced nm nwid n nm' s h =
        let net = joined codec sha nm (clean_nwid nwid) in
        let valid : is_nwid (clean_nwid nwid) ≡ true = ground arith in
        let own = joined-nwid nm (clean_nwid nwid) s in
        let result : nm' ≡ store codec sha nm (clean_nwid nwid) net saved = ground arith in
        rw result (
          subst (λ key. IsSynced (store codec sha nm key net saved)) own
            (store-IsSynced nm net s (subst IsClean (sym own) (clean_nwid-IsClean nwid valid))))
