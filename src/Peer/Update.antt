-- ===== src/Peer/Update.antt =====
-- What `add_or_update_peer` makes of the table.
use zgalaxy_rs.Prelude.{
  ℕ, suc, ◌+◌, ◌≡◌, ◌≢◌, ◌<◌, inl, inr, refl, true, Option, none, some, List, [], ◌∷◌, ◌++◌, All,
  get_elem?, arith, Bool-cases, length, if◌then◌else◌, list_beq, list_beq_iff, nat_eq, map, ap, sym,
  All-append, ◌^◌,
}
use zgalaxy_rs.Prelude.Int.{ℤ}
use zgalaxy_rs.Prelude.Text.{Text}
use zgalaxy_rs.Identity.Address.{address_eq}
use zgalaxy_rs.Peer.Score.{FitsI32}
use zgalaxy_rs.Peer.{latency, Peer, PeerPath, refresh, mark_from}

abbrev pub addresses : List PeerPath → List Text
addresses ps = map (λ p. p.address) ps

-- No text occurs twice.
abbrev pub Distinct : List Text → Type 0
Distinct [] = Unit {0}
Distinct (t ∷ ts) = All (λ u. u ≢ t) ts × Distinct ts

-- The record of a peer as the table keeps it: no two paths with one address, latencies of type
-- `i32`.
pub record IsPeer (peer : Peer) : Type 0 where
  pub distinct : Distinct (addresses peer.paths)
  pub fits : All FitsI32 peer.paths

-- How many paths are marked as preferred.
pub count_preferred : List PeerPath → ℕ
count_preferred [] = 0
count_preferred (p ∷ ps) = if p.preferred then suc (count_preferred ps) else count_preferred ps

length-mark_from : (best i : ℕ) (ps : List PeerPath) → length (mark_from best i ps) ≡ length ps
unfolding mark_from
length-mark_from best i [] = refl
length-mark_from best i (p ∷ ps) = ap suc (length-mark_from best (suc i) ps)

pub addresses-mark_from :
    (best i : ℕ) (ps : List PeerPath) → addresses (mark_from best i ps) ≡ addresses ps
unfolding mark_from
addresses-mark_from best i [] = refl
addresses-mark_from best i (p ∷ ps) = ap (λ t. p.address ∷ t) (addresses-mark_from best (suc i) ps)

pub count_preferred-mark_from :
    (best i : ℕ) (ps : List PeerPath)
    → (best < i → count_preferred (mark_from best i ps) ≡ 0)
      × (i + length ps < best + 1 → count_preferred (mark_from best i ps) ≡ 0)
      × (i < best + 1 → best < i + length ps → count_preferred (mark_from best i ps) ≡ 1)
unfolding mark_from count_preferred
count_preferred-mark_from best i [] = (ground arith, ground arith, ground arith)
count_preferred-mark_from best i (p ∷ ps) =
    let (a, b, c) = count_preferred-mark_from best (suc i) ps in
    (ground arith, ground arith, ground arith)

-- The path that a packet from the endpoint leaves behind.
pub record IsRefreshed (path_str : Text) (now : ℕ) (latency_ms : ℤ) (p : PeerPath) : Type 0 where
  pub address : p.address ≡ path_str
  pub received : p.last_receive ≡ now
  pub measured : p.latency_ms ≡ latency_ms
  pub usable : p.active ≡ true

pub Distinct-snoc :
    (ts : List Text) (t : Text) → Distinct ts → All (λ u. u ≢ t) ts → Distinct (ts ++ t ∷ [])
Distinct-snoc [] t d n = (tt, tt)
Distinct-snoc (u ∷ ts) t d n =
    (All-append (λ v. v ≢ u) ts (t ∷ []) d.0 ((λ e. n.0 (sym e)), tt), Distinct-snoc ts t d.1 n.1)

module _ (path_str : Text) (now : ℕ) (latency_ms : ℤ) where
  -- Either no path has the address, or `refresh` changes a path of that address only.
  pub data Refreshed (ps : List PeerPath) : Option (List PeerPath) → Type 0 where
    absent : All (λ u. u ≢ path_str) (addresses ps) → Refreshed ps none
    present :
        (ps' : List PeerPath) (j : ℕ) (p : PeerPath)
        → addresses ps' ≡ addresses ps
        → get_elem? ps' j ≡ some p
        → IsRefreshed path_str now latency_ms p
        → (All FitsI32 ps → latency p < 2 ^ 31 → All FitsI32 ps')
        → Refreshed ps (some ps')

  pub refresh-Refreshed : (ps : List PeerPath) → Refreshed ps (refresh path_str now latency_ms ps)
  unfolding refresh
  refresh-Refreshed [] = absent tt
  refresh-Refreshed (p ∷ ps) = elim (Bool-cases (list_beq p.address path_str)) [
    | inl same ↦ rw same (
        present (record p { last_receive = now; latency_ms = latency_ms; active = true } ∷ ps) 0
          (record p { last_receive = now; latency_ms = latency_ms; active = true }) refl refl
          (record {
            address = (list_beq_iff p.address path_str).0 same;
            received = refl;
            measured = refl;
            usable = refl;
          })
          (λ all h. (h, all.1)))
    | inr differs ↦
        rw differs (later (λ e. cc ((list_beq_iff p.address path_str).1 e)) (refresh-Refreshed ps))
  ]
    where
      later :
          {o : Option (List PeerPath)}
          → p.address ≢ path_str
          → Refreshed ps o
          → Refreshed (p ∷ ps) (elim o [ none ↦ none | some ps' ↦ some (p ∷ ps') ])
      later n (absent all) = absent (n, all)
      later n (present ps' j q e at fresh fit) =
          present (p ∷ ps') (suc j) q (ap (λ t. p.address ∷ t) e) at fresh
            (λ all h. (all.0, fit all.1 h))
