-- ===== src/Tests/Sessions.antt =====
-- Identities, announcements, connections and control messages at concrete inputs.
use zgalaxy_rs.Prelude.{
  ℕ, ◌≡◌, ◌≢◌, ◌↔◌, ◌≤◌, ◌+◌, ◌*◌, refl, true, none, some, List, [], ◌∷◌, ◌++◌, arith,
  if◌then◌else◌, length, leb, replicate, list_eq, nat_eq, inl, ◌==◌, ◌&&◌,
}
use zgalaxy_rs.Prelude.Bytes.{Bytes, be_bytes, of_be_bytes}
use zgalaxy_rs.Prelude.Text.{hex_encode, trim, trim_start}
use zgalaxy_rs.Prelude.Outcome.{ok, err, panic}
use zgalaxy_rs.Prelude.Dict
use zgalaxy_rs.Net.{socket_eq}
use zgalaxy_rs.Identity.Address.{of_slice}
use zgalaxy_rs.Identity.Address.Display.{from_str, to_string}
use zgalaxy_rs.Identity.Keys.{
  parse, from_public_key, split, split_key, verifying_of, signing_of, address_for, assemble,
  to_public_string,
}
use zgalaxy_rs.Identity.Keys.Print.{parse-to_public_string}
use zgalaxy_rs.Identity.Keys.Total.{parse-IsSafe}
use zgalaxy_rs.Quic.{
  Transport, AnnounceProof, bind, challenge_announce, verify_announce_proof, proof_holds,
  remember_announce, activate, reader_ended, is_active, announce, disconnected,
}
use zgalaxy_rs.Quic.Proof.{
  IsAuthentic, IsAddressText, IsFree, Matches, verify_announce_proof_iff,
  verify_announce_proof-effect,
}
use zgalaxy_rs.Quic.Runs.{Event, issued, checked, Reach, start, challenged, proved, bound}
use zgalaxy_rs.Quic.Runs.Sound.{IsProven, announced-IsProven}
use zgalaxy_rs.Quic.Active.{unless_own, takes_place, closed, activate_lem, reader_ended_lem}
use zgalaxy_rs.Quic.Connect.{Dial, IsKept, activate_amid, connect, connect-connect}
use zgalaxy_rs.Quic.Control.{
  node_challenge, encode, decode, decode_body, read_control_message, message-decode-encode,
  read_control_message-bounded, max_control_size, too_large,
}
use zgalaxy_rs.Daemon.{own_proof}
use zgalaxy_rs.Daemon.Handshake.{announce-succeeds}
use zgalaxy_rs.Tests.Crates.{hex_crate}
use zgalaxy_rs.Tests.Nodes.{
  crypto, laws, identity, identity-IsPublic, identity-IsOwn, messages, crates, remote, address,
  public_text,
}

parse-IsSafe_example : parse crypto hex_crate public_text ≢ panic
parse-IsSafe_example = parse-IsSafe crypto hex_crate public_text

parse-to_public_string_example :
    parse crypto hex_crate (to_public_string crypto identity)
    ≡ ok (record identity { signing_key = none })
parse-to_public_string_example = parse-to_public_string crypto hex_crate identity identity-IsPublic

abbrev bound_node : Transport
unfolding bind
bound_node = bind address public_text

announce-succeeds_example :
    (p : AnnounceProof) × (own_proof crates identity 9 ≡ ok p)
    × ((verify_announce_proof crypto hex_crate
          (challenge_announce bound_node remote (to_string identity.address) 9).0
          remote
          p).1
        ≡ true)
    × (Dict.get
          (verify_announce_proof crypto hex_crate
            (challenge_announce bound_node remote (to_string identity.address) 9).0
            remote
            p).0.announced
          remote
        ≡ some (to_string identity.address))
unfolding Dict.get bound_node
announce-succeeds_example =
    announce-succeeds crates laws bound_node remote identity 9 identity-IsOwn tt

-- The proof for the nonce 9, by the same identity.
unfoldable pub proof : AnnounceProof
unfolding hex_encode
proof = record {
  nonce = 9;
  address = address;
  signature = hex_encode (replicate 64 1);
  public_identity = public_text;
}

unfoldable pub asked : Transport
unfolding challenge_announce bound_node
asked = (challenge_announce bound_node remote address 9).0

holds : proof_holds crypto hex_crate asked remote proof ≡ true
unfolding proof_holds asked proof Dict.get Dict.insert to_string parse split split_key verifying_of
    signing_of address_for assemble from_str trim trim_start from_public_key of_slice be_bytes
holds = refl

abbrev pub events : List Event
unfolding proof
events = checked remote proof ∷ issued remote 9 address ∷ []

pub reaches :
    Reach crypto hex_crate address public_text events
      (remember_announce asked remote proof.address).0
unfolding bound_node asked events
reaches =
    bound (proved (challenged start remote address 9) remote proof holds) remote proof (inl refl)

pub bound_to :
    Dict.get (remember_announce asked remote proof.address).0.announced remote ≡ some address
unfolding Dict.get Dict.insert asked proof remember_announce bound_node
bound_to = refl

announced-IsProven_example : IsProven crypto hex_crate address public_text events remote address
announced-IsProven_example =
    announced-IsProven crypto hex_crate address public_text events
      (remember_announce asked remote proof.address).0 remote address reaches bound_to

verify_announce_proof_iff_example :
    ((verify_announce_proof crypto hex_crate asked remote proof).1 ≡ true) ↔ (
      Matches asked remote proof
      × IsAuthentic crypto hex_crate proof
      × IsAddressText proof.address
      × IsFree (Dict.get asked.announced remote) proof.address)
verify_announce_proof_iff_example = verify_announce_proof_iff crypto hex_crate asked remote proof

verify_announce_proof-effect_example :
    let (t', accepted) = verify_announce_proof crypto hex_crate asked remote proof in
    (Dict.get t'.announced remote ≡ (
      if accepted && remote == remote then some proof.address else Dict.get asked.announced remote))
    × (Dict.get t'.pending_challenges remote ≡ (
        if proof_holds crypto hex_crate asked remote proof && remote == remote
        then none
        else Dict.get asked.pending_challenges remote))
    × (t'.peers ≡ asked.peers)
    × (t'.accepted ≡ asked.accepted)
verify_announce_proof-effect_example =
    verify_announce_proof-effect crypto hex_crate asked remote remote proof

abbrev pub running : Transport
running = record {
  peers = (remote, 4) ∷ [];
  announced = (remote, address) ∷ [];
  pending_challenges = [];
  accepted = (remote, address) ∷ [];
  running = true;
  node_address = address;
  public_identity = public_text;
}

reader_ended_lem_example :
    let (t', effects) = reader_ended running remote 3 in
    (Dict.get t'.peers remote ≡ (
      if remote == remote
      then unless_own 3 (Dict.get running.peers remote)
      else Dict.get running.peers remote))
    × (Dict.get t'.announced remote
        ≡ (if remote == remote then none else Dict.get running.announced remote))
    × (Dict.get t'.accepted remote
        ≡ (if remote == remote then none else Dict.get running.accepted remote))
    × (t'.pending_challenges ≡ running.pending_challenges)
    × (effects ≡ disconnected remote 3 ∷ [])
reader_ended_lem_example = reader_ended_lem running remote remote 3

activate_lem_example :
    let (t', activated, effects) = activate running remote 5 in
    let before = Dict.get running.peers remote in
    (activated ≡ takes_place 5 before)
    × (Dict.get t'.peers remote
        ≡ (if remote == remote then some 5 else Dict.get running.peers remote))
    × (t'.announced ≡ running.announced)
    × (effects ≡ (
        if takes_place 5 before
        then closed before ++ announce 5 running.node_address running.public_identity ∷ []
        else []))
    × (Dict.get t'.accepted remote ≡ (
        if takes_place 5 before && (remote == remote && Dict.contains_key running.peers remote)
        then none
        else Dict.get running.accepted remote))
activate_lem_example = activate_lem running remote remote 5

abbrev dial : Dial
dial = record {
  waiting = λ t. t;
  dialing = λ t. t;
  looked = λ t. t;
  replacing = λ t. t;
  announcing = λ t. t;
  rereading = λ t. t;
  handshake = some 6;
}

kept : IsKept dial remote
kept = record { replacing = λ t. refl; announcing = λ t. refl; rereading = λ t. refl }

abbrev empty_table : Transport
empty_table = record running { peers = []; accepted = [] }

connects : (connect dial empty_table remote).2 ≡ ok (record { remote = remote; conn = 6 })
unfolding connect activate_amid is_active Dict.get
connects = refl

connect-connect_example :
    (remote ≡ remote)
    × (Dict.get (connect dial empty_table remote).0.peers remote ≡ some 6)
    × (connect dial (connect dial empty_table remote).0 remote
        ≡ ((connect dial empty_table remote).0, [], ok (record { remote = remote; conn = 6 })))
connect-connect_example =
    connect-connect dial dial empty_table remote (record { remote = remote; conn = 6 }) kept
      connects

message-decode-encode_example :
    (buf : Bytes) × (encode messages (node_challenge 7) ≡ ok buf)
    × (decode messages (buf ++ 1 ∷ 2 ∷ []) ≡ ok (node_challenge 7))
    × (read_control_message messages (buf ++ 1 ∷ 2 ∷ [])
        ≡ (if leb 1 max_control_size then ok (node_challenge 7, 1 ∷ 2 ∷ []) else err (too_large 1)))
message-decode-encode_example =
    message-decode-encode messages (node_challenge 7) (7 ∷ []) (1 ∷ 2 ∷ []) refl refl (omega arith)

abbrev stream : Bytes
stream = 0 ∷ 0 ∷ 0 ∷ 1 ∷ 7 ∷ 8 ∷ []

reads : read_control_message messages stream ≡ ok (node_challenge 7, 8 ∷ [])
unfolding read_control_message decode_body of_be_bytes
reads = refl

read_control_message-bounded_example :
    (a : ℕ) × (b : ℕ) × (c : ℕ) × (d : ℕ) × (body : Bytes) × (stream
      ≡ a ∷ b ∷ c ∷ d ∷ (body ++ 8 ∷ []))
    × (length body ≡ ((a * 256 + b) * 256 + c) * 256 + d)
    × (length body ≤ max_control_size)
    × (messages.from_slice body ≡ some (node_challenge 7))
read_control_message-bounded_example =
    read_control_message-bounded messages stream (8 ∷ []) (node_challenge 7) reads
