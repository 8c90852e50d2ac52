-- ===== src/Quic/Runs.antt =====
-- Runs of the QUIC transport: the tasks take the locks of the tables in any order, so a step of a run
-- is one critical section, and between the check of a proof and the binding of its address other
-- sections may come. A log keeps the challenges that were drawn and the proofs that passed the check.
pub mod Sound
use zgalaxy_rs.Prelude.{
  ℕ, ◌≡◌, refl, sym, ap, subst, ◌∙◌, Bool, true, false, ◌&&◌, Option, none, some, some_inj, List,
  [], ◌∷◌, arith, if◌then◌else◌, ◌⊎◌, inl, inr, Bool-cases, Option-cases, ◌==◌,
}
use zgalaxy_rs.Prelude.Text.{Text}
use zgalaxy_rs.Prelude.Dict
use zgalaxy_rs.Prelude.Dict.{get-insert, get-remove, get-nil}
use zgalaxy_rs.Net.{SocketAddr, socket_beq, socket_beq_iff, socket_eq}
use zgalaxy_rs.Identity.Address.Display.{HexCrate}
use zgalaxy_rs.Identity.Keys.{SignCrate}
use zgalaxy_rs.Quic.{
  Transport, AnnounceProof, bind, install, record_accepted, forget_accepted, forget_announced,
  drop_peer, challenge_announce, drop_challenge, remember_announce, proof_holds, activate,
  reader_ended, is_active, verify_announce_proof,
}
use zgalaxy_rs.Quic.Proof.{
  IsAuthentic, IsAddressText, Matches, proof_holds_iff, remember_announce_iff,
  announced-remember_announce, tables-remember_announce,
}

pub data Event : Type 0 where
  issued : SocketAddr → ℕ → Text → Event
  checked : SocketAddr → AnnounceProof → Event

abbrev pub Among : Event → List Event → Type 0
Among e [] = ⊥
Among e (x ∷ log) = (x ≡ e) ⊎ Among e log

module _ (crypto : SignCrate) (hex : HexCrate) (node_address public_identity : Text) where
  pub data Reach : List Event → Transport → Type 0 where
    start : Reach [] (bind node_address public_identity)
    started :
        {log : List Event} {t : Transport} → Reach log t → Reach log (record t { running = true })
    installed :
        {log : List Event} {t : Transport}
        → Reach log t
        → (remote : SocketAddr) (conn : ℕ) → Reach log (install t remote conn)
    dropped :
        {log : List Event} {t : Transport}
        → Reach log t
        → (remote : SocketAddr) (conn : ℕ) → Reach log (drop_peer t remote conn)
    acknowledged :
        {log : List Event} {t : Transport}
        → Reach log t
        → (remote : SocketAddr) (a : Text) → Reach log (record_accepted t remote a)
    unaccepted :
        {log : List Event} {t : Transport}
        → Reach log t
        → (remote : SocketAddr) → Reach log (forget_accepted t remote)
    unannounced :
        {log : List Event} {t : Transport}
        → Reach log t
        → (remote : SocketAddr) → Reach log (forget_announced t remote)
    challenged :
        {log : List Event} {t : Transport}
        → Reach log t
        → (remote : SocketAddr) (a : Text) (nonce : ℕ)
        → Reach (issued remote nonce a ∷ log) (challenge_announce t remote a nonce).0
    proved :
        {log : List Event} {t : Transport}
        → Reach log t
        → (remote : SocketAddr) (p : AnnounceProof) → proof_holds crypto hex t remote p ≡ true
        → Reach (checked remote p ∷ log) t
    consumed :
        {log : List Event} {t : Transport}
        → Reach log t
        → (remote : SocketAddr) → Reach log (drop_challenge t remote)
    bound :
        {log : List Event} {t : Transport}
        → Reach log t
        → (remote : SocketAddr) (p : AnnounceProof) → Among (checked remote p) log
        → Reach log (remember_announce t remote p.address).0

  -- The methods, run without an interruption, are runs.
  pub verify_announce_proof-Reach :
      (log : List Event) (t : Transport) (remote : SocketAddr) (p : AnnounceProof)
      → Reach log t
      → (log' : List Event) × Reach log' (verify_announce_proof crypto hex t remote p).0
  unfolding verify_announce_proof
  verify_announce_proof-Reach log t remote p r =
      elim (Bool-cases (proof_holds crypto hex t remote p)) [
        | inl e ↦ (
          checked remote p ∷ log,
          rw (e) (bound (consumed (proved r remote p e) remote) remote p (inl refl)),
        )
        | inr e ↦ (log, rw (e) r)
      ]

  pub activate-Reach :
      (log : List Event) (t : Transport) (remote : SocketAddr) (conn : ℕ)
      → Reach log t
      → Reach log (activate t remote conn).0
  unfolding activate
  activate-Reach log t remote conn r = elim (Bool-cases (is_active t remote conn)) [
    | inl e ↦ rw (e) r
    | inr e ↦ elim (Option-cases (Dict.get t.peers remote)) [
      | inl f ↦ rw (e, f) (installed r remote conn)
      | inr (old, f) ↦ rw (e, f) (unaccepted (installed r remote conn) remote)
    ]
  ]

  pub reader_ended-Reach :
      (log : List Event) (t : Transport) (remote : SocketAddr) (conn : ℕ)
      → Reach log t
      → Reach log (reader_ended t remote conn).0
  unfolding reader_ended
  reader_ended-Reach log t remote conn r =
      unaccepted (unannounced (dropped r remote conn) remote) remote
