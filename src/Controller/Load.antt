-- ===== src/Controller/Load.antt =====
-- src/controller.rs, `init`: the tables that are loaded from the controller's directory. The files are
-- what reading the directories gives, in their order, and serde_json is a parameter.
use zgalaxy_rs.Prelude.{
  ◌≡◌, sym, ap, subst, ◌∙◌, Bool, Option, none, some, some_inj, List, [], ◌∷◌, arith, list_eq,
  list_beq_iff, nat_eq, if◌then◌else◌, Bool-cases, Option-cases, inl, inr, ◌==◌,
}
use zgalaxy_rs.Prelude.Text.{Text}
use zgalaxy_rs.Prelude.Dict
use zgalaxy_rs.Prelude.Dict.{Dict, get-insert, get-nil}
use zgalaxy_rs.Controller.Types.{Controller, NetworkConfig, MemberRecord, Members}

-- An entry of a directory: whether its extension is `json`, and its content, if it can be read.
pub record File (Content : Type 0) : Type 0 where
  pub is_json : Bool
  pub content : Option Content

-- `serde_json::from_str` for the two records.
pub record RecordJson (Value Content : Type 0) : Type 0 where
  pub network_of : Content → Option (NetworkConfig Value)
  pub member_of : Content → Option (MemberRecord Value)

module _ {Value Content : Type 0} (serde : RecordJson Value Content) where
  open serde use {network_of, member_of}

  -- The record in a file, if the file is one of JSON that reads as a record.
  abbrev pub record_in : {A : Type 0} → (Content → Option A) → File Content → Option A
  record_in read f = if f.is_json then elim f.content [ none ↦ none | some t ↦ read t ] else none

  unfoldable pub load_members : List (File Content) → Members Value → Members Value
  load_members [] m = m
  load_members (f ∷ fs) m = elim (record_in member_of f) [
    | none ↦ load_members fs m
    | some r ↦ load_members fs (Dict.insert m r.id r)
  ]

  -- A network, and its members if their directory exists and can be read.
  unfoldable pub load_network :
      NetworkConfig Value → Option (List (File Content)) → Controller Value → Controller Value
  unfolding load_members
  load_network net members c =
      let c' : Controller Value = record c { networks = Dict.insert c.networks net.nwid net } in
      elim members [
        | none ↦ c'
        | some fs ↦ record c' { members = Dict.insert c.members net.nwid (load_members fs []) }
      ]

  unfoldable pub load_networks :
      (Text → Option (List (File Content)))
      → List (File Content)
      → Controller Value
      → Controller Value
  unfolding load_network
  load_networks member_dir [] c = c
  load_networks member_dir (f ∷ fs) c = elim (record_in network_of f) [
    | none ↦ load_networks member_dir fs c
    | some net ↦ load_networks member_dir fs (load_network net (member_dir net.nwid) c)
  ]

  -- `net_dir` as it is read, or not.
  unfoldable pub init :
      (Text → Option (List (File Content)))
      → Option (List (File Content))
      → Controller Value
      → Controller Value
  unfolding load_networks
  init member_dir none c = c
  init member_dir (some fs) c = load_networks member_dir fs c

  -- Every record is under its own name.
  abbrev pub Keyed : {A : Type 0} → (A → Text) → Dict Text A → Type 0
  Keyed name d = (k : Text) (v : _) → Dict.get d k ≡ some v → name v ≡ k

  insert-Keyed :
      {A : Type 0} (name : A → Text) (d : Dict Text A) (v : A)
      → Keyed name d
      → Keyed name (Dict.insert d (name v) v)
  insert-Keyed name d v h k w e = elim (Bool-cases (name v == k)) [
    | inl same ↦
        let here : some v ≡ some w =
          sym (get-insert d (name v) v k ∙ ap (λ b. if b then some v else Dict.get d k) same) ∙ e in
        ap name (sym (some_inj here)) ∙ (list_beq_iff (name v) k).0 same
    | inr other ↦
        h k w
          (sym (get-insert d (name v) v k ∙ ap (λ b. if b then some v else Dict.get d k) other) ∙ e)
  ]

  load_members-Keyed :
      (fs : List (File Content)) (m : Members Value)
      → Keyed (λ r. r.id) m
      → Keyed (λ r. r.id) (load_members fs m)
  unfolding load_members
  load_members-Keyed [] m h = h
  load_members-Keyed (f ∷ fs) m h = elim (Option-cases (record_in member_of f)) [
    | inl e ↦ rw (load_members, e) (load_members-Keyed fs m h)
    | inr (r, e) ↦
        rw (load_members, e)
          (load_members-Keyed fs (Dict.insert m r.id r) (insert-Keyed (λ x. x.id) m r h))
  ]

  -- The tables of a controller whose records are under their own ids.
  pub record IsKeyed (c : Controller Value) : Type 0 where
    pub networks : Keyed (λ n. n.nwid) c.networks
    pub members :
        (nwid : Text) (m : Members Value) → Dict.get c.members nwid ≡ some m → Keyed (λ r. r.id) m

  empty-Keyed : {A : Type 0} (name : A → Text) → Keyed name []
  empty-Keyed {A = A} name k v e = absurd (ground (arith, get-nil {V = A} k))

  -- A table of members that are under their own ids goes into the tables.
  insert-members :
      (d : Dict Text (Members Value)) (nwid : Text) (new : Members Value)
      → ((n : Text) (m : Members Value) → Dict.get d n ≡ some m → Keyed (λ r. r.id) m)
      → Keyed (λ r. r.id) new
      → (n : Text) (m : Members Value) → Dict.get (Dict.insert d nwid new) n ≡ some m
      → Keyed (λ r. r.id) m
  insert-members d nwid new h k n m e = elim (Bool-cases (nwid == n)) [
    | inl same ↦
        let here : some new ≡ some m =
          sym (get-insert d nwid new n ∙ ap (λ b. if b then some new else Dict.get d n) same) ∙ e in
        subst (λ x. Keyed (λ r. r.id) x) (some_inj here) k
    | inr other ↦
        h n m
          (sym (get-insert d nwid new n ∙ ap (λ b. if b then some new else Dict.get d n) other) ∙ e)
  ]

  load_network-IsKeyed :
      (net : NetworkConfig Value) (o : Option (List (File Content))) (c : Controller Value)
      → IsKeyed c
      → IsKeyed (load_network net o c)
  unfolding load_network
  load_network-IsKeyed net none c h = record {
    networks = insert-Keyed (λ n. n.nwid) c.networks net h.networks;
    members = h.members;
  }
  load_network-IsKeyed net (some fs) c h = record {
    networks = insert-Keyed (λ n. n.nwid) c.networks net h.networks;
    members =
        insert-members c.members net.nwid (load_members fs []) h.members
          (load_members-Keyed fs [] (empty-Keyed (λ r. r.id)));
  }

  load_networks-IsKeyed :
      (member_dir : Text → Option (List (File Content))) (fs : List (File Content))
      (c : Controller Value)
      → IsKeyed c
      → IsKeyed (load_networks member_dir fs c)
  unfolding load_networks
  load_networks-IsKeyed member_dir [] c h = h
  load_networks-IsKeyed member_dir (f ∷ fs) c h = elim (Option-cases (record_in network_of f)) [
    | inl e ↦ rw (load_networks, e) (load_networks-IsKeyed member_dir fs c h)
    | inr (net, e) ↦
        rw (load_networks, e)
          (load_networks-IsKeyed member_dir fs (load_network net (member_dir net.nwid) c)
            (load_network-IsKeyed net (member_dir net.nwid) c h))
  ]

  -- Whatever files the directory has, under whatever names, and whichever of them can be read, loading
  -- them keeps every network in the tables under its own id and every member under its own id.
  pub init-IsKeyed :
      (member_dir : Text → Option (List (File Content))) (files : Option (List (File Content)))
      (c : Controller Value)
      → IsKeyed c
      → IsKeyed (init member_dir files c)
  unfolding init
  init-IsKeyed member_dir none c h = h
  init-IsKeyed member_dir (some fs) c h = load_networks-IsKeyed member_dir fs c h
