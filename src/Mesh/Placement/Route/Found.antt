-- ===== src/Mesh/Placement/Route/Found.antt =====
-- commonnet/mesh/placement.py: what holds of a route that `best_route` returns.
use common_network.Prelude.{
  ℕ, ◌<◌, ◌≡◌, refl, sym, ap, String, List, [], ◌∷◌, map, length, Option, Bool, true, false, not,
  ◌==◌, number_eq, text_eq, pair_eq, leb, keep_if, All, arith, Bool-cases, inl, inr,
}
use mathlib.Core.Path.{subst}
use common_network.Prelude.Dict.{lookup}
use common_network.Prelude.Sort.{All-sort_by}
use common_network.Mesh.Records.{PeerRecord}
use common_network.Mesh.Manifest.{Manifest, largest}
use common_network.Mesh.Cover.Once.{Tiles}
use common_network.Mesh.Placement.{Window, serves, serving}
use common_network.Mesh.Placement.Route
use common_network.Mesh.Placement.Route.{Groups, Hop, found, no_route, Way}
use common_network.Mesh.Placement.Route.Near.{near, explore-near}
use common_network.Mesh.Placement.Route.Sound.{
  On, AreGroups, IsWay, group_all-AreGroups, lookup-On, explore-All, least_from-All,
}

-- Some way is at the farthest boundary of all.
farthest_way {κ} :
    (Q : Way → Type κ) (best : List Way)
    → All Q best
    → 0 < length best
    → (v : Way) × (Q v × (v.at ≡ largest (Route.reached best)))
farthest_way Q [] h some_way = absurd (omega arith)
farthest_way Q (v ∷ []) h some_way = (v, (h.0, omega arith))
farthest_way Q (v ∷ w ∷ ws) h some_way =
    let (u, (q, at)) = farthest_way Q (w ∷ ws) h.1 (omega arith) in
    elim (Bool-cases (leb u.at v.at)) [
      | inl e ↦ (v, (h.0, ground arith))
      | inr e ↦ (u, (q, ground arith))
    ]

near-length : (x n : ℕ) (best : List Way) → near x n best ≡ true → 0 < length best
near-length x n [] h = cc
near-length x n (v ∷ vs) h = omega arith

module _ {κ} (P : PeerRecord → Type κ) (m : Manifest) where
  -- The hop's peer and its alternates serve its window, and no alternate is the peer itself.
  abbrev pub IsHop : Hop → Type κ
  IsHop h =
      On P m h.window h.primary
      × All (λ r. On P m h.window r × ((r.peer == h.primary.peer) ≡ false)) h.alternates

  hop_of-IsHop :
      (groups : Groups) (w : Window) (pick : PeerRecord)
      → AreGroups P m groups
      → On P m w pick
      → IsHop (Route.hop_of groups (w, pick))
  unfolding Route.hop_of
  hop_of-IsHop groups w pick h on =
      let peers = Route.peers_on (lookup w groups) in
      let Q : PeerRecord → Type κ = λ r. On P m w r × ((r.peer == pick.peer) ≡ false) in
      (
        on,
        All-sort_by _ Q _
            (All-others (On P m w) (λ r. r.peer == pick.peer) peers (lookup-On P m w groups h)),
      )
    where
      All-others :
          (R : PeerRecord → Type κ) (p : PeerRecord → Bool) (rs : List PeerRecord)
          → All R rs
          → All (λ r. R r × (p r ≡ false)) (keep_if (λ r. not (p r)) rs)
      All-others R p [] h = tt
      All-others R p (r ∷ rs) h = elim (Bool-cases (p r)) [
        | inl e ↦ rw e (All-others R p rs h.1)
        | inr e ↦ rw e ((h.0, e), All-others R p rs h.1)
      ]

  hops-IsHop :
      (groups : Groups) (path : List (Window × PeerRecord))
      → AreGroups P m groups
      → All (λ p. On P m p.0 p.1) path
      → All IsHop (map (Route.hop_of groups) path)
  hops-IsHop groups [] h ons = tt
  hops-IsHop groups (p ∷ path) h ons =
      (hop_of-IsHop groups p.0 p.1 h ons.0, hops-IsHop groups path h ons.1)

  hops-windows :
      (groups : Groups) (path : List (Window × PeerRecord))
      → map (λ h. h.window) (map (Route.hop_of groups) path) ≡ map (λ p. p.0) path
  unfolding Route.hop_of
  hops-windows groups [] = refl
  hops-windows groups (p ∷ path) = ap (◌∷◌ p.0) (hops-windows groups path)

  serving-All :
      (live : List PeerRecord) → All P live → All (λ r. P r × (serves m r ≡ true)) (serving m live)
  unfolding serving
  serving-All [] h = tt
  serving-All (r ∷ rs) h = elim (Bool-cases (serves m r)) [
    | inl e ↦ rw e ((h.0, e), serving-All rs h.1)
    | inr e ↦ rw e (serving-All rs h.1)
  ]

  module _ (live : List PeerRecord) (prefer : Option String) (now start : ℕ) where
    abbrev pub groups_of : Groups
    groups_of = Route.group_all [] (serving m live)

    abbrev pub ways : List Way
    ways = Route.explore now prefer m.boundaries groups_of (Route.origin start ∷ [])

    pub ways-All : All P live → All (IsWay P m start) ways
    ways-All h =
        explore-All P m now prefer start m.boundaries groups_of (Route.origin start ∷ [])
          (group_all-AreGroups P m [] (serving m live) (serving-All live h) tt)
          (record { tiles = refl; on = tt; counted = refl }, tt)

    abbrev IsArrived : Way → Type κ
    IsArrived v = IsWay P m start v × (v.at ≡ m.num_layers)

    IsArrived-All :
        (vs : List Way)
        → All (IsWay P m start) vs
        → All IsArrived (keep_if (λ v. v.at == m.num_layers) vs)
    IsArrived-All [] h = tt
    IsArrived-All (v ∷ vs) h = ground (arith, IsArrived-All vs h.1)

    -- A chain of serving peers of the list, from the start to a layer.
    abbrev pub IsChain : ℕ → List (Window × PeerRecord) → Type κ
    IsChain x path = Tiles start x (map (λ p. p.0) path) × All (λ p. On P m p.0 p.1) path

    abbrev pub IsRoute : Route.Route → Type κ
    IsRoute (found hops) = Tiles start m.num_layers (map (λ h. h.window) hops) × All IsHop hops
    IsRoute (no_route b) = (path : List (Window × PeerRecord)) × IsChain b path

    found-IsRoute :
        (v : Way)
        → AreGroups P m groups_of
        → IsArrived v
        → IsRoute (found (map (Route.hop_of groups_of) v.path))
    found-IsRoute v on h =
        let windows = hops-windows groups_of v.path in
        let tiles : Tiles start m.num_layers (map (λ p. p.0) v.path) =
          subst (λ x. Tiles start x (map (λ p. p.0) v.path)) h.1 h.0.tiles in
        (
          subst (Tiles start m.num_layers) (sym windows) tiles,
          hops-IsHop groups_of v.path on h.0.on,
        )

    route_of-IsRoute :
        (best finals : List Way)
        → AreGroups P m groups_of
        → All (IsWay P m start) best
        → 0 < length best
        → All IsArrived finals
        → IsRoute (Route.route_of groups_of best finals)
    route_of-IsRoute best [] on held some_way h =
        let (v, (way, at)) = farthest_way (IsWay P m start) best held some_way in
        (v.path, (subst (λ x. Tiles start x (map (λ p. p.0) v.path)) at way.tiles, way.on))
    route_of-IsRoute best (v ∷ vs) on held some_way h =
        found-IsRoute (Route.least_from v vs) on (least_from-All IsArrived v vs h.0 h.1)

    -- The hops of a route that `best_route` returns follow one another from the start to the end of the model;
    -- each hop's peer and its alternates are live peers that serve the hop's window, the alternates others than
    -- the peer; and where it returns none, a chain of live peers reaches the layer that it names.
    pub best_route-IsRoute : All P live → IsRoute (Route.best_route m live prefer now start)
    unfolding Route.best_route
    best_route-IsRoute h =
        route_of-IsRoute ways (keep_if (λ v. v.at == m.num_layers) ways)
          (group_all-AreGroups P m [] (serving m live) (serving-All live h) tt) (ways-All h)
          (near-length start 0 ways (
            explore-near now prefer start 0 m.boundaries groups_of (Route.origin start ∷ [])
              (ground arith)))
          (IsArrived-All ways (ways-All h))
