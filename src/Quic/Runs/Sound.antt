-- ===== src/Quic/Runs/Sound.antt =====
-- The bindings of a run are proven: the log accounts for each of them.
use zgalaxy_rs.Prelude.{
  ℕ, ◌≡◌, refl, subst, true, ◌&&◌, Option, none, some, List, ◌∷◌, arith, inl, inr, Bool-cases,
}
use zgalaxy_rs.Prelude.Text.{Text}
use zgalaxy_rs.Prelude.Dict
use zgalaxy_rs.Prelude.Dict.{get-insert, get-remove, get-nil}
use zgalaxy_rs.Net.{SocketAddr, socket_beq, socket_beq_iff, socket_eq}
use zgalaxy_rs.Identity.Address.Display.{HexCrate}
use zgalaxy_rs.Identity.Keys.{SignCrate}
use zgalaxy_rs.Quic.{
  Transport, AnnounceProof, bind, install, record_accepted, forget_accepted, forget_announced,
  drop_peer, challenge_announce, drop_challenge, remember_announce, proof_holds,
}
use zgalaxy_rs.Quic.Proof.{
  IsAuthentic, IsAddressText, proof_holds_iff, remember_announce_iff, announced-remember_announce,
  tables-remember_announce,
}
use zgalaxy_rs.Quic.Runs.{
  Event, issued, checked, Among, Reach, start, started, installed, dropped, acknowledged,
  unaccepted, unannounced, challenged, proved, consumed, bound,
}

module _ (crypto : SignCrate) (hex : HexCrate) (node_address public_identity : Text) where
  -- The log accounts for a challenge, for a proof that was checked, and for a binding.
  abbrev Drawn : List Event → Option (ℕ × Text) → SocketAddr → Type 0
  Drawn log none r = Unit {0}
  Drawn log (some (n, a)) r = Among (issued r n a) log

  -- A binding of `r` to `a` comes from a proof for `a` that `r` gave, which answers a challenge that
  -- was drawn for `r`.
  pub record IsProven (log : List Event) (r : SocketAddr) (a : Text) : Type 0 where
    pub proof : AnnounceProof
    pub text : IsAddressText a
    pub about : proof.address ≡ a
    pub authentic : IsAuthentic crypto hex proof
    pub answers : Among (issued r proof.nonce a) log

  abbrev pub Proven : List Event → Option Text → SocketAddr → Type 0
  Proven log none r = Unit {0}
  Proven log (some a) r = IsProven log r a

  abbrev Account : List Event → Event → Type 0
  Account log (issued r n a) = Unit {0}
  Account log (checked r p) = IsAuthentic crypto hex p × Among (issued r p.nonce p.address) log

  record IsSound (log : List Event) (t : Transport) : Type 0 where
    challenges : (r : SocketAddr) → Drawn log (Dict.get t.pending_challenges r) r
    bindings : (r : SocketAddr) → Proven log (Dict.get t.announced r) r
    checks : (e : Event) → Among e log → Account log e

  Drawn-more :
      (log : List Event) (e : Event) (o : Option (ℕ × Text)) (r : SocketAddr)
      → Drawn log o r
      → Drawn (e ∷ log) o r
  Drawn-more log e none r h = tt
  Drawn-more log e (some (n, a)) r h = inr h

  Proven-more :
      (log : List Event) (e : Event) (o : Option Text) (r : SocketAddr)
      → Proven log o r
      → Proven (e ∷ log) o r
  Proven-more log e none r h = tt
  Proven-more log e (some a) r h = record {
    proof = h.proof;
    text = h.text;
    about = h.about;
    authentic = h.authentic;
    answers = inr h.answers;
  }

  Account-more : (log : List Event) (e x : Event) → Account log x → Account (e ∷ log) x
  Account-more log e (issued r n a) h = tt
  Account-more log e (checked r p) h = (h.0, inr h.1)

  -- Writing or removing one key of a table keeps what holds of the other keys.
  insert-each :
      {V : Type 0} (P : Option V → SocketAddr → Type 0) (m : Dict.Dict SocketAddr V)
      (k : SocketAddr) (v : V)
      → ((r : SocketAddr) → P (Dict.get m r) r)
      → P (some v) k
      → (r : SocketAddr) → P (Dict.get (Dict.insert m k v) r) r
  insert-each P m k v all here r = rw (get-insert m k v r) (elim (Bool-cases (socket_beq k r)) [
    | inl e ↦ rw (e) (subst (λ x. P (some v) x) ((socket_beq_iff k r).0 e) here)
    | inr e ↦ rw (e) (all r)
  ])

  remove-each :
      {V : Type 0} (P : Option V → SocketAddr → Type 0) (m : Dict.Dict SocketAddr V)
      (k : SocketAddr)
      → ((r : SocketAddr) → P (Dict.get m r) r)
      → ((r : SocketAddr) → P none r)
      → (r : SocketAddr) → P (Dict.get (Dict.remove m k) r) r
  remove-each P m k all absent r =
      rw (get-remove m k r)
        (elim (Bool-cases (socket_beq k r)) [ inl e ↦ rw (e) (absent r) | inr e ↦ rw (e) (all r) ])

  -- A binding that `remember_announce` makes, or the one that was there.
  remembered :
      (log : List Event) (t : Transport) (remote : SocketAddr) (p : AnnounceProof)
      → IsSound log t
      → Among (checked remote p) log
      → (r : SocketAddr)
      → Proven log (Dict.get (remember_announce t remote p.address).0.announced r) r
  remembered log t remote p s m r =
      rw (announced-remember_announce t remote r p.address)
        (elim (Bool-cases ((remember_announce t remote p.address).1 && socket_beq remote r)) [
          | inr e ↦ rw (e) (s.bindings r)
          | inl e ↦
              let same : remote ≡ r = (socket_beq_iff remote r).0 (ground arith) in
              let ok : (remember_announce t remote p.address).1 ≡ true = ground arith in
              rw (e) (
                subst (λ x. IsProven log x p.address) same
                  record {
                    proof = p;
                    text = ((remember_announce_iff t remote p.address).0 ok).0;
                    about = refl;
                    authentic = (s.checks (checked remote p) m).0;
                    answers = (s.checks (checked remote p) m).1;
                  })
        ])

  -- Nothing but the challenges and the bindings matters.
  carry :
      (log : List Event) (t u : Transport)
      → u.pending_challenges ≡ t.pending_challenges
      → u.announced ≡ t.announced
      → IsSound log t
      → IsSound log u
  carry log t u e f s = record {
    challenges = rw e s.challenges;
    bindings = rw f s.bindings;
    checks = s.checks;
  }

  drop_peer_lem :
      (t : Transport) (remote : SocketAddr) (conn : ℕ)
      → ((drop_peer t remote conn).pending_challenges ≡ t.pending_challenges)
        × ((drop_peer t remote conn).announced ≡ t.announced)
  unfolding drop_peer
  drop_peer_lem t remote conn = ground arith

  more :
      (log : List Event) (t : Transport) (e : Event)
      → IsSound log t
      → Account (e ∷ log) e
      → IsSound (e ∷ log) t
  more log t e s a = record {
    challenges = λ r. Drawn-more log e (Dict.get t.pending_challenges r) r (s.challenges r);
    bindings = λ r. Proven-more log e (Dict.get t.announced r) r (s.bindings r);
    checks = λ x m. elim m [
      | inl same ↦ subst (Account (e ∷ log)) same a
      | inr n ↦ Account-more log e x (s.checks x n)
    ];
  }

  proof_holds-Account :
      (log : List Event) (t : Transport) (remote : SocketAddr) (p : AnnounceProof)
      → IsSound log t
      → proof_holds crypto hex t remote p ≡ true
      → Account (checked remote p ∷ log) (checked remote p)
  proof_holds-Account log t remote p s h =
      let (here, authentic) = (proof_holds_iff crypto hex t remote p).0 h in
      (authentic, inr (subst (λ o. Drawn log o remote) here (s.challenges remote)))

  sound :
      (log : List Event) (t : Transport)
      → Reach crypto hex node_address public_identity log t
      → IsSound log t
  unfolding bind install record_accepted forget_accepted forget_announced challenge_announce
      drop_challenge
  sound log t start = record {
    challenges = λ r. rw (get-nil r) tt;
    bindings = λ r. rw (get-nil r) tt;
    checks = λ e m. absurd m;
  }
  sound log t (started {t = u} r) = carry log u t refl refl (sound log u r)
  sound log t (installed {t = u} r remote conn) = carry log u t refl refl (sound log u r)
  sound log t (dropped {t = u} r remote conn) =
      carry log u t (drop_peer_lem u remote conn).0 (drop_peer_lem u remote conn).1 (sound log u r)
  sound log t (acknowledged {t = u} r remote a) = carry log u t refl refl (sound log u r)
  sound log t (unaccepted {t = u} r remote) = carry log u t refl refl (sound log u r)
  sound log t (unannounced {t = u} r remote) =
      let s = sound log u r in
      record {
        challenges = s.challenges;
        bindings = remove-each (Proven log) u.announced remote s.bindings (λ x. tt);
        checks = s.checks;
      }
  sound log t (challenged {log = rest} {t = u} r remote a nonce) =
      let s = more rest u (issued remote nonce a) (sound rest u r) tt in
      record {
        challenges =
            insert-each (Drawn log) u.pending_challenges remote (nonce, a) s.challenges (inl refl);
        bindings = s.bindings;
        checks = s.checks;
      }
  sound log t (proved {log = rest} r remote p h) =
      let s = sound rest t r in
      more rest t (checked remote p) s (proof_holds-Account rest t remote p s h)
  sound log t (consumed {t = u} r remote) =
      let s = sound log u r in
      record {
        challenges = remove-each (Drawn log) u.pending_challenges remote s.challenges (λ x. tt);
        bindings = s.bindings;
        checks = s.checks;
      }
  sound log t (bound {t = u} r remote p m) =
      let s = sound log u r in
      let kept = tables-remember_announce u remote p.address in
      record {
        challenges = rw (kept.0) s.challenges;
        bindings = remembered log u remote p s m;
        checks = s.checks;
      }

  -- In every state that the transport reaches, whatever the order of the critical sections, a remote
  -- is bound to an address only if the address is ten hexadecimal characters, a challenge for the
  -- remote and that address was drawn, and the remote gave a proof for it: an identity string of the
  -- address with a signature of the challenge that its key verifies.
  pub announced-IsProven :
      (log : List Event) (t : Transport) (r : SocketAddr) (a : Text)
      → Reach crypto hex node_address public_identity log t
      → Dict.get t.announced r ≡ some a
      → IsProven log r a
  announced-IsProven log t r a h e = subst (λ o. Proven log o r) e ((sound log t h).bindings r)
