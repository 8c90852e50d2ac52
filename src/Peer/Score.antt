-- ===== src/Peer/Score.antt =====
-- The loop that picks a path, against its description: the first path of the highest score.
use zgalaxy_rs.Prelude.{
  ℕ, zero, suc, ◌+◌, ◌^◌, ◌≡◌, ◌≤◌, ◌<◌, inl, inr, refl, true, some, List, [], ◌∷◌, All, get_elem?,
  take, arith, Bool-cases, if◌then◌else◌,
}
use zgalaxy_rs.Prelude.Int.{ℤ, ◌≤ℤ◌, ltb_ℤ, pos_part, neg_part, ◌-ℤ◌}
use zgalaxy_rs.Peer.{PeerPath, score, best_from, best_index, min_score, is_alive, is_v6, latency}

abbrev ◌<ℤ◌ : ℤ → ℤ → Type 0
◌<ℤ◌ a b = pos_part a + neg_part b < pos_part b + neg_part a

-- `p` stands at position `k`, no path scores more, and every path before it scores less.
pub record IsFirstBest (now : ℕ) (paths : List PeerPath) (k : ℕ) (p : PeerPath) : Type 0 where
  pub here : get_elem? paths k ≡ some p
  pub highest : All (λ q. score now q ≤ℤ score now p) paths
  pub first : All (λ q. ◌<ℤ◌ (score now q) (score now p)) (take k paths)

-- The loop keeps the best so far, or finds a first best path that beats it.
data Scan (now : ℕ) (ps : List PeerPath) (i : ℕ) (s : ℤ) (b r : ℕ) : Type 0 where
  kept : r ≡ b → All (λ q. score now q ≤ℤ s) ps → Scan now ps i s b r
  beaten :
      (k : ℕ) (p : PeerPath)
      → r ≡ i + k
      → ◌<ℤ◌ s (score now p)
      → IsFirstBest now ps k p
      → Scan now ps i s b r

All-weaken :
    (now : ℕ) (s t : ℤ) (ps : List PeerPath)
    → s ≤ℤ t
    → All (λ q. score now q ≤ℤ s) ps
    → All (λ q. score now q ≤ℤ t) ps
All-weaken now s t [] h all = tt
All-weaken now s t (q ∷ ps) h all = (omega (arith, all.0), All-weaken now s t ps h all.1)

-- One more path in front, which scores less than the best.
push_front :
    (now : ℕ) (q : PeerPath) (ps : List PeerPath) (k : ℕ) (p : PeerPath)
    → ◌<ℤ◌ (score now q) (score now p)
    → IsFirstBest now ps k p
    → IsFirstBest now (q ∷ ps) (suc k) p
push_front now q ps k p h b = record {
  here = b.here;
  highest = (omega arith, b.highest);
  first = (h, b.first);
}

best_from-Scan :
    (now : ℕ) (ps : List PeerPath) (i : ℕ) (s : ℤ) (b : ℕ)
    → Scan now ps i s b (best_from now ps i s b)
unfolding best_from
best_from-Scan now [] i s b = kept refl tt
best_from-Scan now (q ∷ ps) i s b = elim (Bool-cases (ltb_ℤ s (score now q))) [
  | inl more ↦ rw more (taken (ground arith) (best_from-Scan now ps (suc i) (score now q) i))
  | inr less ↦ rw less (skipped (ground arith) (best_from-Scan now ps (suc i) s b))
]
  where
    taken :
        {r : ℕ}
        → ◌<ℤ◌ s (score now q)
        → Scan now ps (suc i) (score now q) i r
        → Scan now (q ∷ ps) i s b r
    taken h (kept e all) =
        beaten 0 q (omega arith) h
          (record { here = refl; highest = (omega arith, all); first = tt })
    taken h (beaten k p e lt best) =
        beaten (suc k) p (omega arith) (omega arith) (push_front now q ps k p lt best)

    skipped : {r : ℕ} → score now q ≤ℤ s → Scan now ps (suc i) s b r → Scan now (q ∷ ps) i s b r
    skipped h (kept e all) = kept e (h, all)
    skipped h (beaten k p e lt best) =
        beaten (suc k) p (omega arith) lt (push_front now q ps k p (omega arith) best)

-- Latencies are of type `i32`.
abbrev pub FitsI32 : PeerPath → Type 0
FitsI32 p = latency p < 2 ^ 31

score-low : (now : ℕ) (p : PeerPath) → FitsI32 p → ◌<ℤ◌ min_score (score now p)
unfolding score ◌-ℤ◌
score-low now p h = ground arith

-- For a peer with paths whose latencies are `i32`, the chosen position is that of the first path of
-- the highest score.
pub best_index-IsFirstBest :
    (now : ℕ) (p : PeerPath) (ps : List PeerPath)
    → All FitsI32 (p ∷ ps)
    → (q : PeerPath) × IsFirstBest now (p ∷ ps) (best_index now (p ∷ ps)) q
unfolding best_index
best_index-IsFirstBest now p ps fits = found (best_from-Scan now (p ∷ ps) 0 min_score 0)
  where
    found :
        {r : ℕ} → Scan now (p ∷ ps) 0 min_score 0 r → (q : PeerPath) × IsFirstBest now (p ∷ ps) r q
    found (kept e all) = absurd (omega (arith, score-low now p fits.0, all.0))
    found {r} (beaten k q e lt best) = let same : r ≡ k = omega arith in (q, rw same best)

All-at :
    (now : ℕ) (s : ℤ) (ps : List PeerPath) (j : ℕ) (x : PeerPath)
    → All (λ q. score now q ≤ℤ s) ps
    → get_elem? ps j ≡ some x
    → score now x ≤ℤ s
All-at now s [] j x all e = cc
All-at now s (q ∷ ps) zero x all e = ground (arith, all.0)
All-at now s (q ∷ ps) (suc j) x all e = All-at now s ps j x all.1 e

-- What the score adds for a path that is alive and has an IPv6 address.
abbrev pub v6_bonus : PeerPath → ℕ
v6_bonus p = if is_v6 p then 2000 else 0

score-choice :
    (now : ℕ) (x q : PeerPath)
    → score now x ≤ℤ score now q
    → is_alive now x ≡ true
    → latency x < 10000
    → (is_alive now q ≡ true) × (latency q + v6_bonus x ≤ latency x + v6_bonus q)
unfolding score ◌-ℤ◌
score-choice now x q h alive low = (ground arith, ground arith)

-- Where the latencies are `i32` and some path is alive with a latency below 10000 ms, the chosen path is alive, and no slower
-- than that path once IPv6 counts for 2000 ms.
pub best_index-choice :
    (now : ℕ) (p : PeerPath) (ps : List PeerPath) (j : ℕ) (x : PeerPath)
    → All FitsI32 (p ∷ ps)
    → get_elem? (p ∷ ps) j ≡ some x
    → is_alive now x ≡ true
    → latency x < 10000
    → (q : PeerPath) × (get_elem? (p ∷ ps) (best_index now (p ∷ ps)) ≡ some q)
      × (is_alive now q ≡ true)
      × (latency q + v6_bonus x ≤ latency x + v6_bonus q)
best_index-choice now p ps j x fits at alive low =
    let (q, best) = best_index-IsFirstBest now p ps fits in
    let (a, b) =
      score-choice now x q (All-at now (score now q) (p ∷ ps) j x best.highest at) alive low in
    (q, best.here, a, b)
