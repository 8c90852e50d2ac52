-- ===== src/Network/Disk.antt =====
-- src/network.rs: the directory `networks.d`, and what reads and writes it. The directory is the files
-- that the program names: `<nwid>.json`, `<nwid>.json.tmp` and `<nwid>.conf`, each kind a map from
-- nwid to content. A file operation takes its result as an argument, and one that fails changes nothing.
use zgalaxy_rs.Prelude.{
  ◌≡◌, Bool, true, false, not, ◌&&◌, Option, none, some, List, [], ◌∷◌, length, all, nat_beq,
  nat_eq, list_eq, if◌then◌else◌, contains, retain, ◌==◌,
}
use zgalaxy_rs.Prelude.Text.{Text, trim, to_lowercase, is_hex}
use zgalaxy_rs.Prelude.Dict
use zgalaxy_rs.Prelude.Dict.{Dict}
use zgalaxy_rs.Network.Types.{
  Network, NetworkStatus, requesting_configuration, disconnected, Sha256, derive_mac, new_network,
}

-- serde_json on a `Network`: what is printed is read back.
pub record NetworkText : Type 1 where
  -- A `String`, which the program only passes on.
  pub Content : Type 0
  pub to_string_pretty : Network → Option Content
  pub from_str : Content → Option Network
  pub from_str-to_string :
      (n : Network) (t : Content) → to_string_pretty n ≡ some t → from_str t ≡ some n

pub record Disk (Content : Type 0) : Type 0 where
  pub json : Dict Text Content
  pub tmp : Dict Text Content
  pub conf : List Text

-- The results of the file operations of one save: `create_dir_all`, the two writes and the rename.
pub record SaveResults : Type 0 where
  pub dir_made : Bool
  pub tmp_written : Bool
  pub renamed : Bool
  pub conf_written : Bool

-- The results of `load_from_disk`: `exists`, `read_dir`, every `next_entry`, and `read_to_string` of
-- the `.json` file with a stem.
pub record LoadResults : Type 0 where
  pub exists : Bool
  pub opened : Bool
  pub listed : Bool
  pub readable : Text → Bool

-- The results of the two `remove_file`.
pub record RemoveResults : Type 0 where
  pub json_removed : Bool
  pub conf_removed : Bool

unfoldable pub write_json :
    {Content : Type 0} → Disk Content → Text → Content → SaveResults → Disk Content
write_json disk nwid content io =
    if io.tmp_written
    then if io.renamed
      then record disk {
        json = Dict.insert disk.json nwid content;
        tmp = Dict.remove disk.tmp nwid;
      }
      else record disk { tmp = Dict.insert disk.tmp nwid content }
    else disk

unfoldable pub write_conf : {Content : Type 0} → Disk Content → Text → SaveResults → Disk Content
write_conf disk nwid io =
    if io.conf_written && not (contains disk.conf nwid)
    then record disk { conf = nwid ∷ disk.conf }
    else disk

-- `path.extension()` of `<stem>.json` or `<stem>.conf` is there: a name that begins with its only dot
-- has no extension.
abbrev pub has_extension : Text → Bool
has_extension [] = false
has_extension (c ∷ cs) = true

module _ (codec : NetworkText) where
  open codec use {Content, to_string_pretty, from_str}

  -- `has_dir` says whether a working directory is set.
  unfoldable pub persist_network_to_disk :
      Bool → Disk Content → Network → SaveResults → Disk Content
  unfolding write_json write_conf
  persist_network_to_disk has_dir disk net io =
      if has_dir && io.dir_made
      then elim (to_string_pretty net) [
        | none ↦ write_conf disk net.nwid io
        | some content ↦ write_conf (write_json disk net.nwid content io) net.nwid io
      ]
      else disk

  -- The status that a network has after a restart.
  abbrev pub restored_status : Bool → NetworkStatus
  restored_status connected = if connected then requesting_configuration else disconnected

  unfoldable pub restore : Sha256 → Text → Network → Network
  restore sha node net = record net {
    status = restored_status net.connected;
    mac = elim net.mac [ [] ↦ derive_mac sha net.nwid node | c ∷ cs ↦ c ∷ cs ];
  }

  -- The table after one file.
  unfoldable pub load_file :
      Sha256 → Text → (Text → Bool) → Text → Content → Dict Text Network → Dict Text Network
  unfolding restore
  load_file sha node readable stem content networks =
      if has_extension stem && readable stem
      then elim (from_str content) [
        | none ↦ networks
        | some net ↦ Dict.insert networks net.nwid (restore sha node net)
      ]
      else networks

  -- The first pass: every `.json` file that can be read and parsed.
  unfoldable pub load_json :
      Sha256 → Text → (Text → Bool) → Dict Text Content → Dict Text Network → Dict Text Network
  unfolding load_file
  load_json sha node readable [] networks = networks
  load_json sha node readable ((stem, content) ∷ files) networks =
      load_json sha node readable files (load_file sha node readable stem content networks)

-- `clean.len() == 16 && clean.chars().all(|c| c.is_ascii_hexdigit())`
abbrev pub is_nwid : Text → Bool
is_nwid clean = nat_beq (length clean) 16 && all is_hex clean

-- The second pass: the `.conf` files of networks that are not in the table.
unfoldable pub load_conf : Sha256 → Text → List Text → Dict Text Network → Dict Text Network
unfolding new_network trim
load_conf sha node [] networks = networks
load_conf sha node (stem ∷ files) networks =
    let clean = to_lowercase (trim stem) in
    load_conf sha node files (
      if has_extension stem && is_nwid clean && not (Dict.contains_key networks clean)
      then Dict.insert networks clean (new_network sha clean node)
      else networks)

unfoldable pub delete_network_from_disk :
    {Content : Type 0} → Bool → Disk Content → Text → RemoveResults → Disk Content
delete_network_from_disk has_dir disk nwid io =
    if has_dir
    then record disk {
      json = if io.json_removed then Dict.remove disk.json nwid else disk.json;
      conf = if io.conf_removed then retain (λ s. not (s == nwid)) disk.conf else disk.conf;
    }
    else disk
