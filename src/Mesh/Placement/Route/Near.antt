-- ===== src/Mesh/Placement/Route/Near.antt =====
-- commonnet/mesh/placement.py: the search of `best_route` misses no chain of windows and no shorter one.
use common_network.Prelude.{
  ℕ, suc, ◌+◌, ◌≤◌, ◌<◌, ◌≡◌, sym, String, List, [], ◌∷◌, length, Option, Bool, true, ◌&&◌, ◌==◌,
  number_eq, pair_eq, ltb, leb, any, All, either_of, arith, Bool-cases, inl, inr,
}
use mathlib.Core.Path.{subst}
use common_network.Mesh.Records.{PeerRecord}
use common_network.Mesh.Manifest.Valid.{Rising}
use common_network.Mesh.Cover.Once.{Tiles}
use common_network.Mesh.Placement.{Window}
use common_network.Mesh.Placement.Route
use common_network.Mesh.Placement.Route.{Groups, Way, same_state, cheaper}

-- Some way is at the boundary after at most so many hops.
abbrev pub near : ℕ → ℕ → List Way → Bool
near x n = any (λ v. v.at == x && leb v.hops n)

improve-near :
    (v : Way) (best : List Way) (x n : ℕ)
    → near x n best ≡ true
    → near x n (Route.improve v best) ≡ true
unfolding Route.improve
improve-near v [] x n h = cc
improve-near v (w ∷ ws) x n h = ground (arith, improve-near v ws x n)

improve-new : (v : Way) (best : List Way) → near v.at v.hops (Route.improve v best) ≡ true
unfolding Route.improve
improve-new v [] = ground arith
improve-new v (w ∷ ws) = ground (arith, improve-new v ws)

near-le : (x n k : ℕ) (best : List Way) → n ≤ k → near x n best ≡ true → near x k best ≡ true
near-le x n k [] le h = cc
near-le x n k (w ∷ ws) le h = ground (arith, near-le x n k ws le)

-- Some serving peers are grouped under the window.
abbrev pub has_group : Window → Groups → Bool
has_group w = any (λ g. g.0 == w && ltb 0 (length g.1))

module _ (now : ℕ) (prefer : Option String) (x n : ℕ) where
  hop_by-near :
      (v : Way) (w : Window) (peers : List PeerRecord) (best : List Way)
      → near x n best ≡ true
      → near x n (Route.hop_by now prefer v w peers best) ≡ true
  hop_by-near v w [] best h = h
  hop_by-near v w (r ∷ rs) best h = improve-near _ best x n h

  groups-near :
      (v : Way) (groups : Groups) (best : List Way)
      → near x n best ≡ true
      → near x n (Route.explore_groups now prefer v groups best) ≡ true
  unfolding Route.explore_groups
  groups-near v [] best h = h
  groups-near v (g ∷ groups) best h =
      groups-near v groups _
        (either_of (λ b. near x n b ≡ true) (g.0.0 == v.at) _ best (hop_by-near v g.0 g.1 best h) h)

  ways-near :
      (b : ℕ) (groups : Groups) (vs best : List Way)
      → near x n best ≡ true
      → near x n (Route.explore_ways now prefer b groups vs best) ≡ true
  unfolding Route.explore_ways
  ways-near b groups [] best h = h
  ways-near b groups (v ∷ vs) best h =
      ways-near b groups vs _
        (either_of (λ ws. near x n ws ≡ true) (v.at == b) _ best (groups-near v groups best h) h)

  pub explore-near :
      (bs : List ℕ) (groups : Groups) (best : List Way)
      → near x n best ≡ true
      → near x n (Route.explore now prefer bs groups best) ≡ true
  unfolding Route.explore
  explore-near [] groups best h = h
  explore-near (b ∷ bs) groups best h = explore-near bs groups _ (ways-near b groups best best h)

module _ (now : ℕ) (prefer : Option String) (w : Window) (n : ℕ) where
  hop_by-new :
      (v : Way) (u : Window) (peers : List PeerRecord) (best : List Way)
      → v.hops ≤ n
      → u ≡ w
      → 0 < length peers
      → near w.1 (suc n) (Route.hop_by now prefer v u peers best) ≡ true
  unfolding Route.hop_on
  hop_by-new v u [] best le same full = absurd (omega arith)
  hop_by-new v u (r ∷ rs) best le same full =
      let pick = Route.pick_from now prefer v.backend r rs in
      subst (λ z. near z.1 (suc n) (Route.hop_by now prefer v u (r ∷ rs) best) ≡ true) same
        (near-le u.1 (v.hops + 1) (suc n) _ (omega arith)
          (improve-new (Route.hop_on now prefer v u pick) best))

  groups-new :
      (v : Way) (groups : Groups) (best : List Way)
      → v.at ≡ w.0
      → v.hops ≤ n
      → has_group w groups ≡ true
      → near w.1 (suc n) (Route.explore_groups now prefer v groups best) ≡ true
  unfolding Route.explore_groups
  groups-new v [] best at le h = cc
  groups-new v (g ∷ groups) best at le h = elim (Bool-cases (g.0 == w && ltb 0 (length g.1))) [
    | inl here ↦
        let same : g.0 ≡ w = (pair_eq.agrees g.0 w).0 (ground (arith, here)) in
        let from : (g.0.0 == v.at) ≡ true = ground (arith, same) in
        rw from (
          groups-near now prefer w.1 (suc n) v groups _
            (hop_by-new v g.0 g.1 best le same (ground (arith, here))))
    | inr there ↦ groups-new v groups _ at le (ground (arith, there))
  ]

  ways-new :
      (groups : Groups) (vs best : List Way)
      → near w.0 n vs ≡ true
      → has_group w groups ≡ true
      → near w.1 (suc n) (Route.explore_ways now prefer w.0 groups vs best) ≡ true
  unfolding Route.explore_ways
  ways-new groups [] best h k = cc
  ways-new groups (v ∷ vs) best h k = elim (Bool-cases (v.at == w.0 && leb v.hops n)) [
    | inl here ↦
        let from : (v.at == w.0) ≡ true = ground (arith, here) in
        rw from (
          ways-near now prefer w.1 (suc n) w.0 groups vs _
            (groups-new v groups best (ground (arith, here)) (ground (arith, here)) k))
    | inr there ↦ ways-new groups vs _ (ground (arith, there)) k
  ]

-- The windows start on the boundaries of the list.
abbrev pub Start : List ℕ → List Window → Type 0
Start bs = All (λ w. any (λ b. b == w.0) bs ≡ true)

Start-after :
    (b lo hi : ℕ) (bs : List ℕ) (ws : List Window)
    → b < lo
    → Tiles lo hi ws
    → Start (b ∷ bs) ws
    → Start bs ws
Start-after b lo hi bs [] lt t h = tt
Start-after b lo hi bs (w ∷ ws) lt t h =
    (ground arith, Start-after b w.1 hi bs ws (omega arith) t.2 h.1)

above_any : (b x : ℕ) (bs : List ℕ) → All (λ c. b < c) bs → any (λ c. c == x) bs ≡ true → b < x
above_any b x [] h k = cc
above_any b x (c ∷ bs) h k = ground (arith, above_any b x bs h.1)

module _ (now : ℕ) (prefer : Option String) where
  pub explore-Tiles :
      (bs : List ℕ) (groups : Groups) (best : List Way) (lo hi n : ℕ) (ws : List Window)
      → Rising bs
      → Tiles lo hi ws
      → Start bs ws
      → All (λ w. has_group w groups ≡ true) ws
      → near lo n best ≡ true
      → near hi (n + length ws) (Route.explore now prefer bs groups best) ≡ true
  unfolding Route.explore
  explore-Tiles bs groups best lo hi n [] rising tiles starts held h =
      explore-near now prefer hi (n + 0) bs groups best (ground arith)
  explore-Tiles [] groups best lo hi n (w ∷ ws) rising tiles starts held h = cc
  explore-Tiles (b ∷ bs) groups best lo hi n (w ∷ ws) rising tiles starts held h =
      elim (Bool-cases (b == w.0)) [
        | inl same ↦
            let turn : near w.1 (suc n) (Route.explore_ways now prefer b groups best best) ≡ true =
              subst
                (λ z. near w.1 (suc n) (Route.explore_ways now prefer z groups best best) ≡ true)
                (sym ((number_eq.agrees b w.0).0 same))
                (ways-new now prefer w n groups best best
                  (subst (λ z. near z n best ≡ true) (sym tiles.0) h) held.0) in
            near-le hi (suc n + length ws) (n + length (w ∷ ws)) _ (omega arith) (
              explore-Tiles bs groups _ w.1 hi (suc n) ws rising.1 tiles.2
                (Start-after b w.1 hi bs ws (ground arith) tiles.2 starts.1) held.1 turn)
        | inr other ↦
            explore-Tiles bs groups _ lo hi n (w ∷ ws) rising.1 tiles
              (Start-after b lo hi bs (w ∷ ws) (ground (arith, above_any b w.0 bs rising.0)) tiles
                starts)
              held (ways-near now prefer lo n b groups best best h)
      ]
