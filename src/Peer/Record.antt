-- ===== src/Peer/Record.antt =====
-- The record of a peer after a packet: its list of paths, and what the method makes of it.
use zgalaxy_rs.Prelude.{
  ℕ, zero, suc, ◌+◌, ◌≡◌, ◌<◌, ◌^◌, refl, true, Option, none, some, List, [], ◌∷◌, ◌++◌, All,
  get_elem?, arith, length, All-append, nat_beq,
}
use mathlib.Core.List.{map-append}
use zgalaxy_rs.Prelude.Int.{ℤ, pos, negsuc}
use zgalaxy_rs.Prelude.Text.{Text}
use zgalaxy_rs.Identity.Address.{address_eq}
use zgalaxy_rs.Peer.{
  latency, Peer, PeerPath, touch_path, mark_from, best_index, adopt_best, update_peer, new_path,
  is_empty,
}
use zgalaxy_rs.Peer.Score.{FitsI32, IsFirstBest, best_index-IsFirstBest}
use zgalaxy_rs.Peer.Update.{
  addresses, Distinct, IsPeer, IsRefreshed, Refreshed, absent, present, refresh-Refreshed,
  Distinct-snoc, count_preferred, count_preferred-mark_from, addresses-mark_from,
}

-- A value of type `i32`.
abbrev pub IsI32 : ℤ → Type 0
IsI32 (pos n) = n < 2 ^ 31
IsI32 (negsuc n) = n < 2 ^ 31

latency-IsI32 : (p : PeerPath) (l : ℤ) → IsI32 l → p.latency_ms ≡ l → FitsI32 p
unfolding latency
latency-IsI32 p (pos n) h e = rw e h
latency-IsI32 p (negsuc n) h e = rw e (omega arith)

get_elem?-last : {A : Type 0} (xs : List A) (x : A) → get_elem? (xs ++ x ∷ []) (length xs) ≡ some x
get_elem?-last [] x = refl
get_elem?-last (y ∷ xs) x = get_elem?-last xs x

module _ (path_str : Text) (now : ℕ) (latency_ms : ℤ) (i32 : IsI32 latency_ms) where
  -- The paths after the packet: distinct and in range, one of them refreshed.
  record Touched (qs : List PeerPath) : Type 0 where
    distinct : Distinct (addresses qs)
    fits : All FitsI32 qs
    at : ℕ
    path : PeerPath
    here : get_elem? qs at ≡ some path
    refreshed : IsRefreshed path_str now latency_ms path

  touch_path-Touched :
      (ps : List PeerPath)
      → Distinct (addresses ps)
      → All FitsI32 ps
      → Touched (touch_path path_str now latency_ms ps)
  unfolding touch_path
  touch_path-Touched ps d fit = go (refresh-Refreshed path_str now latency_ms ps)
    where
      fresh : PeerPath
      fresh = new_path path_str now latency_ms (is_empty ps)

      go :
          {o : Option (List PeerPath)}
          → Refreshed path_str now latency_ms ps o
          → Touched (elim o [ some ps' ↦ ps' | none ↦ ps ++ fresh ∷ [] ])
      go (absent all) = record {
        distinct = rw (map-append) (Distinct-snoc (addresses ps) path_str d all);
        fits = All-append FitsI32 ps (fresh ∷ []) fit (latency-IsI32 fresh latency_ms i32 refl, tt);
        at = length ps;
        path = fresh;
        here = get_elem?-last ps fresh;
        refreshed = record { address = refl; received = refl; measured = refl; usable = refl };
      }
      go (present ps' j q e at' r keeps) = record {
        distinct = rw e d;
        fits = keeps fit (latency-IsI32 q latency_ms i32 r.measured);
        at = j;
        path = q;
        here = at';
        refreshed = r;
      }

get_elem?-mark_from :
    (best i j : ℕ) (ps : List PeerPath) (p : PeerPath)
    → get_elem? ps j ≡ some p
    → get_elem? (mark_from best i ps) j ≡ some (record p { preferred = nat_beq (i + j) best })
unfolding mark_from
get_elem?-mark_from best i j [] p e = cc
get_elem?-mark_from best i zero (q ∷ ps) p e = ground arith
get_elem?-mark_from best i (suc j) (q ∷ ps) p e =
    let same : suc i + j ≡ i + suc j = omega arith in
    rw (← same) (get_elem?-mark_from best (suc i) j ps p e)

fits-mark_from :
    (best i : ℕ) (ps : List PeerPath) → All FitsI32 ps → All FitsI32 (mark_from best i ps)
unfolding mark_from latency
fits-mark_from best i [] h = tt
fits-mark_from best i (p ∷ ps) h = (h.0, fits-mark_from best (suc i) ps h.1)

-- The peer's record after the packet: still well formed; one of its paths is that of the packet,
-- refreshed; exactly one path is preferred; and that one gives the physical address and the latency.
pub record IsUpdated (path_str : Text) (now : ℕ) (latency_ms : ℤ) (peer : Peer) : Type 0 where
  pub valid : IsPeer peer
  pub at : ℕ
  pub path : PeerPath
  pub here : get_elem? peer.paths at ≡ some path
  pub refreshed : IsRefreshed path_str now latency_ms path
  pub preferred_at : ℕ
  pub preferred : PeerPath
  pub preferred_here : get_elem? peer.paths preferred_at ≡ some preferred
  pub marked : preferred.preferred ≡ true
  pub single : count_preferred peer.paths ≡ 1
  pub physical : peer.physical_address ≡ some preferred.address
  pub measured : peer.latency_ms ≡ preferred.latency_ms
  pub contacted : peer.last_contact ≡ now

get_elem?-lt : {A : Type 0} (xs : List A) (i : ℕ) (x : A) → get_elem? xs i ≡ some x → i < length xs
get_elem?-lt [] i x e = cc
get_elem?-lt (y ∷ xs) zero x e = omega arith
get_elem?-lt (y ∷ xs) (suc i) x e = omega (arith, get_elem?-lt xs i x e)

nonempty :
    (now : ℕ) (qs : List PeerPath) (at : ℕ) (p : PeerPath)
    → get_elem? qs at ≡ some p
    → All FitsI32 qs
    → (q : PeerPath) × IsFirstBest now qs (best_index now qs) q
nonempty now [] at p e fits = cc
nonempty now (q ∷ qs) at p e fits = best_index-IsFirstBest now q qs fits

module _ (path_str : Text) (now : ℕ) (latency_ms : ℤ) (i32 : IsI32 latency_ms) where
  pub update_peer-IsUpdated :
      (peer : Peer)
      → IsPeer peer
      → IsUpdated path_str now latency_ms (update_peer path_str now latency_ms peer)
  unfolding update_peer adopt_best
  update_peer-IsUpdated peer v =
      go (touch_path-Touched path_str now latency_ms i32 peer.paths v.distinct v.fits)
    where
      qs : List PeerPath
      qs = touch_path path_str now latency_ms peer.paths

      best : ℕ
      best = best_index now qs

      go :
          Touched path_str now latency_ms i32 qs
          → IsUpdated path_str now latency_ms (
              adopt_best (get_elem? (mark_from best 0 qs) best) (record peer {
                latency_ms = latency_ms;
                last_contact = now;
                paths = mark_from best 0 qs;
              }))
      go t =
          let (q, first) = nonempty now qs t.at t.path t.here t.fits in
          let at_best = get_elem?-mark_from best 0 best qs q first.here in
          let low = get_elem?-lt qs best q first.here in
          rw at_best (record {
            valid = record {
              distinct = rw (addresses-mark_from best 0 qs) t.distinct;
              fits = fits-mark_from best 0 qs t.fits;
            };
            at = t.at;
            path = record t.path { preferred = nat_beq (0 + t.at) best };
            here = get_elem?-mark_from best 0 t.at qs t.path t.here;
            refreshed = ground arith;
            preferred_at = best;
            preferred = record q { preferred = nat_beq (0 + best) best };
            preferred_here = at_best;
            marked = ground arith;
            single = (count_preferred-mark_from best 0 qs).2 (omega arith) (omega arith);
            physical = refl;
            measured = refl;
            contacted = refl;
          })
