-- ===== src/Mesh/Placement/Route/Sound.antt =====
-- commonnet/mesh/placement.py: every way that `best_route` keeps is a chain of serving peers.
use common_network.Prelude.{
  ℕ, ◌<◌, ◌≡◌, refl, sym, String, List, [], ◌∷◌, ◌++◌, map, length, length-append, map-append,
  either_of, Option, none, some, true, ◌==◌, number_eq, text_eq, pair_eq, if◌then◌else◌, All,
  All-append, arith, Bool-cases, inl, inr,
}
use mathlib.Core.Path.{subst}
use common_network.Prelude.Dict.{lookup}
use common_network.Mesh.Records.{PeerRecord}
use common_network.Mesh.Manifest.{Manifest, is_window}
use common_network.Mesh.Cover.Once.{Tiles}
use common_network.Mesh.Placement
use common_network.Mesh.Placement.{Window, window_of, serves, serving, on_stages}
use common_network.Mesh.Placement.Route
use common_network.Mesh.Placement.Route.{
  Groups, Hop, found, no_route, Way, cheaper, same_state, reached,
}

Tiles-append :
    (lo mid hi : ℕ) (ws vs : List Window)
    → Tiles lo mid ws
    → Tiles mid hi vs
    → Tiles lo hi (ws ++ vs)
Tiles-append lo mid hi [] vs t u = subst (λ x. Tiles x hi vs) (sym t) u
Tiles-append lo mid hi (w ∷ ws) vs t u = (t.0, t.1, Tiles-append w.1 mid hi ws vs t.2 u)

is_window-lt : (m : Manifest) (a b : ℕ) → is_window m a b ≡ true → a < b
unfolding is_window
is_window-lt m a b h = ground arith

module _ {κ} (P : PeerRecord → Type κ) (m : Manifest) where
  -- A peer of the list that serves the window.
  abbrev pub On : Window → PeerRecord → Type κ
  On w r = P r × (serves m r ≡ true) × (window_of r ≡ w)

  abbrev pub AreGroups : Groups → Type κ
  AreGroups = All (λ g. All (On g.0) g.1)

  put_in-AreGroups :
      (w : Window) (r : PeerRecord) (groups : Groups)
      → On w r
      → AreGroups groups
      → AreGroups (Route.put_in w r groups)
  unfolding Route.put_in
  put_in-AreGroups w r [] on h = ((on, tt), tt)
  put_in-AreGroups w r (g ∷ groups) on h = elim (Bool-cases (g.0 == w)) [
    | inl same ↦ rw same (
      All-append (On g.0) g.1 (r ∷ []) h.0
          (subst (λ v. On v r) (sym ((pair_eq.agrees g.0 w).0 same)) on, tt),
      h.1,
    )
    | inr other ↦ rw other (h.0, put_in-AreGroups w r groups on h.1)
  ]

  pub group_all-AreGroups :
      (groups : Groups) (rs : List PeerRecord)
      → All (λ r. P r × (serves m r ≡ true)) rs
      → AreGroups groups
      → AreGroups (Route.group_all groups rs)
  unfolding Route.group_all
  group_all-AreGroups groups [] hs h = h
  group_all-AreGroups groups (r ∷ rs) hs h =
      group_all-AreGroups (Route.put_in (window_of r) r groups) rs hs.1
        (put_in-AreGroups (window_of r) r groups (hs.0.0, hs.0.1, refl) h)

  pub lookup-On :
      (w : Window) (groups : Groups)
      → AreGroups groups
      → All (On w) (Route.peers_on (lookup w groups))
  unfolding lookup
  lookup-On w [] h = tt
  lookup-On w (g ∷ groups) h = elim (Bool-cases (g.0 == w)) [
    | inl same ↦ rw same (subst (λ v. All (On v) g.1) ((pair_eq.agrees g.0 w).0 same) h.0)
    | inr other ↦ rw other (lookup-On w groups h.1)
  ]

  -- The way's path is a chain of serving peers from the start to where it is, one to a hop.
  pub record IsWay (start : ℕ) (v : Way) : Type κ where
    pub tiles : Tiles start v.at (map (λ p. p.0) v.path)
    pub on : All (λ p. On p.0 p.1) v.path
    pub counted : v.hops ≡ length v.path

  improve-All :
      (start : ℕ) (v : Way) (best : List Way)
      → IsWay start v
      → All (IsWay start) best
      → All (IsWay start) (Route.improve v best)
  unfolding Route.improve
  improve-All start v [] way h = (way, tt)
  improve-All start v (w ∷ ws) way h = ground (arith, improve-All start v ws way h.1)

  serves-lt : (w : Window) (r : PeerRecord) → On w r → w.0 < w.1
  serves-lt w r on = subst (λ v. v.0 < v.1) on.2 (window_rises r.window (ground (arith, on.1)))
    where
      window_rises :
          (o : Option Window)
          → on_stages m o ≡ true
          → (Placement.window_or o).0 < (Placement.window_or o).1
      window_rises none h = cc
      window_rises (some v) h = is_window-lt m v.0 v.1 h

  module _ (now : ℕ) (prefer : Option String) (start : ℕ) where
    pick_from-On :
        (previous : Option String) (w : Window) (best : PeerRecord) (rs : List PeerRecord)
        → On w best
        → All (On w) rs
        → On w (Route.pick_from now prefer previous best rs)
    unfolding Route.pick_from
    pick_from-On previous w best [] on h = on
    pick_from-On previous w best (r ∷ rs) on h =
        let b = Route.preferred now prefer previous r best in
        pick_from-On previous w (if b then r else best) rs (either_of (On w) b r best h.0 on) h.1

    hop_on-IsWay :
        (v : Way) (w : Window) (r : PeerRecord)
        → w.0 ≡ v.at
        → IsWay start v
        → On w r
        → IsWay start (Route.hop_on now prefer v w r)
    unfolding Route.hop_on
    hop_on-IsWay v w r from way on = record {
      tiles = subst (Tiles start w.1) (sym (map-append (λ p. p.0) v.path ((w, r) ∷ []))) (
          Tiles-append start v.at w.1 (map (λ p. p.0) v.path) (w ∷ []) way.tiles
            (from, serves-lt w r on, refl));
      on = All-append _ v.path ((w, r) ∷ []) way.on (on, tt);
      counted = omega (arith, way.counted, length-append v.path ((w, r) ∷ []));
    }

    hop_by-All :
        (v : Way) (w : Window) (peers : List PeerRecord) (best : List Way)
        → w.0 ≡ v.at
        → IsWay start v
        → All (On w) peers
        → All (IsWay start) best
        → All (IsWay start) (Route.hop_by now prefer v w peers best)
    hop_by-All v w [] best from way on h = h
    hop_by-All v w (r ∷ rs) best from way on h =
        let pick = Route.pick_from now prefer v.backend r rs in
        improve-All start (Route.hop_on now prefer v w pick) best
          (hop_on-IsWay v w pick from way (pick_from-On v.backend w r rs on.0 on.1)) h

    explore_groups-All :
        (v : Way) (groups : Groups) (best : List Way)
        → IsWay start v
        → AreGroups groups
        → All (IsWay start) best
        → All (IsWay start) (Route.explore_groups now prefer v groups best)
    unfolding Route.explore_groups
    explore_groups-All v [] best way on h = h
    explore_groups-All v (g ∷ groups) best way on h = elim (Bool-cases (g.0.0 == v.at)) [
      | inl e ↦ rw e (
          explore_groups-All v groups (Route.hop_by now prefer v g.0 g.1 best) way on.1
            (hop_by-All v g.0 g.1 best (ground (arith, e)) way on.0 h))
      | inr e ↦ rw e (explore_groups-All v groups best way on.1 h)
    ]

    explore_ways-All :
        (b : ℕ) (groups : Groups) (vs best : List Way)
        → AreGroups groups
        → All (IsWay start) vs
        → All (IsWay start) best
        → All (IsWay start) (Route.explore_ways now prefer b groups vs best)
    unfolding Route.explore_ways
    explore_ways-All b groups [] best on ways h = h
    explore_ways-All b groups (v ∷ vs) best on ways h = elim (Bool-cases (v.at == b)) [
      | inl e ↦ rw e (
          explore_ways-All b groups vs (Route.explore_groups now prefer v groups best) on ways.1
            (explore_groups-All v groups best ways.0 on h))
      | inr e ↦ rw e (explore_ways-All b groups vs best on ways.1 h)
    ]

    pub explore-All :
        (bs : List ℕ) (groups : Groups) (best : List Way)
        → AreGroups groups
        → All (IsWay start) best
        → All (IsWay start) (Route.explore now prefer bs groups best)
    unfolding Route.explore
    explore-All [] groups best on h = h
    explore-All (b ∷ bs) groups best on h =
        explore-All bs groups (Route.explore_ways now prefer b groups best best) on
          (explore_ways-All b groups best best on h h)

pub least_from-All {κ} :
    (Q : Way → Type κ) (best : Way) (vs : List Way)
    → Q best
    → All Q vs
    → Q (Route.least_from best vs)
unfolding Route.least_from
least_from-All Q best [] q h = q
least_from-All Q best (v ∷ vs) q h =
    let b = cheaper v best in
    least_from-All Q (if b then v else best) vs (either_of Q b v best h.0 q) h.1
