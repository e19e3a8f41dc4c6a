-- ===== src/Mesh/Placement/Route/Shortest.antt =====
-- commonnet/mesh/placement.py: `best_route` finds a route where there is a chain, with the fewest hops.
use common_network.Prelude.{
  ℕ, ◌≤◌, ◌≡◌, sym, String, List, [], ◌∷◌, length, length-map, length-append, Option, none, some,
  ◌≢◌, Bool, true, ◌&&◌, ◌==◌, number_eq, pair_eq, leb, if◌then◌else◌, any, keep_if, All,
  All-keep_if, arith, Bool-cases, inl, inr,
}
use mathlib.Core.Path.{subst}
use mathlib.Core.Bool.{false≢true}
use common_network.Mesh.Records.{PeerRecord}
use common_network.Mesh.Manifest.{Manifest, is_window, largest}
use common_network.Mesh.Manifest.Valid.{Rising}
use common_network.Mesh.Cover.Once.{Tiles}
use common_network.Mesh.Placement.{Window, window_of, window_or, on_stages, serves, serving}
use common_network.Mesh.Placement.Route
use common_network.Mesh.Placement.Route.{Groups, Way, found, no_route, cheaper}
use common_network.Mesh.Placement.Route.Near.{near, has_group, Start, explore-Tiles}
use common_network.Mesh.Placement.Route.Found.{ways-All, groups_of, ways}
use common_network.Mesh.Placement.Route.Sound.{IsWay, least_from-All}

put_in-new :
    (w : Window) (r : PeerRecord) (groups : Groups) → has_group w (Route.put_in w r groups) ≡ true
unfolding Route.put_in
put_in-new w r [] = ground (arith, pair_eq.agrees w w)
put_in-new w r (g ∷ groups) = ground (arith, put_in-new w r groups, length-append g.1 (r ∷ []))

put_in-keeps :
    (v w : Window) (r : PeerRecord) (groups : Groups)
    → has_group w groups ≡ true
    → has_group w (Route.put_in v r groups) ≡ true
unfolding Route.put_in
put_in-keeps v w r [] h = cc
put_in-keeps v w r (g ∷ groups) h =
    ground (arith, put_in-keeps v w r groups, length-append g.1 (r ∷ []))

group_all-keeps :
    (w : Window) (groups : Groups) (rs : List PeerRecord)
    → has_group w groups ≡ true
    → has_group w (Route.group_all groups rs) ≡ true
unfolding Route.group_all
group_all-keeps w groups [] h = h
group_all-keeps w groups (r ∷ rs) h =
    group_all-keeps w (Route.put_in (window_of r) r groups) rs
      (put_in-keeps (window_of r) w r groups h)

on_boundary :
    (m : Manifest) (w : Option Window)
    → on_stages m w ≡ true
    → any (λ b. b == (window_or w).0) m.boundaries ≡ true
unfolding is_window
on_boundary m none h = cc
on_boundary m (some w) h = ground arith

module _ (m : Manifest) where
  -- A live peer serves exactly the window.
  abbrev pub is_served : List PeerRecord → Window → Bool
  is_served live w = any (λ r. serves m r && window_of r == w) live

  serving-group :
      (w : Window) (live : List PeerRecord) (groups : Groups)
      → is_served live w ≡ true
      → has_group w (Route.group_all groups (serving m live)) ≡ true
  unfolding serving Route.group_all
  serving-group w [] groups h = cc
  serving-group w (r ∷ rs) groups h = elim (Bool-cases (serves m r)) [
    | inl up ↦ rw up (elim (Bool-cases (window_of r == w)) [
      | inl here ↦ group_all-keeps w _ (serving m rs) (
          subst (λ z. has_group w (Route.put_in z r groups) ≡ true)
            (sym ((pair_eq.agrees (window_of r) w).0 here)) (put_in-new w r groups))
      | inr there ↦ serving-group w rs (Route.put_in (window_of r) r groups) (ground (arith, there))
    ])
    | inr down ↦ rw down (serving-group w rs groups (ground (arith, down)))
  ]

  served-boundary :
      (live : List PeerRecord) (w : Window)
      → is_served live w ≡ true
      → any (λ b. b == w.0) m.boundaries ≡ true
  served-boundary [] w h = cc
  served-boundary (r ∷ rs) w h = elim (Bool-cases (serves m r && window_of r == w)) [
    | inl here ↦
        subst (λ v. any (λ b. b == v.0) m.boundaries ≡ true)
          ((pair_eq.agrees (window_of r) w).0 (ground (arith, here)))
          (on_boundary m r.window (ground (arith, here)))
    | inr there ↦ served-boundary rs w (ground (arith, there))
  ]

  served-Start :
      (live : List PeerRecord) (ws : List Window)
      → All (λ w. is_served live w ≡ true) ws
      → Start m.boundaries ws
  served-Start live [] h = tt
  served-Start live (w ∷ ws) h = (served-boundary live w h.0, served-Start live ws h.1)

  served-groups :
      (live : List PeerRecord) (ws : List Window)
      → All (λ w. is_served live w ≡ true) ws
      → All (λ w. has_group w (Route.group_all [] (serving m live)) ≡ true) ws
  served-groups live [] h = tt
  served-groups live (w ∷ ws) h = (serving-group w live [] h.0, served-groups live ws h.1)

  -- No chain of so many windows to the layer makes the route needless or longer than it has to be.
  abbrev pub IsShortest : ℕ → ℕ → Route.Route → Type 0
  IsShortest x n (found hops) = x ≡ m.num_layers → length hops ≤ n
  IsShortest x n (no_route b) = (x ≢ m.num_layers) × (x ≤ b)

  module _ (x n : ℕ) where
    least_from-le :
        (v : Way) (vs : List Way)
        → any (λ w. leb w.hops n) (v ∷ vs) ≡ true
        → (Route.least_from v vs).hops ≤ n
    unfolding Route.least_from
    least_from-le v [] h = ground arith
    least_from-le v (w ∷ ws) h = least_from-le (if cheaper w v then w else v) ws (ground arith)

    near-final :
        (best : List Way)
        → near x n best ≡ true
        → x ≡ m.num_layers
        → any (λ w. leb w.hops n) (keep_if (λ v. v.at == m.num_layers) best) ≡ true
    near-final [] h at = cc
    near-final (v ∷ vs) h at = ground (arith, near-final vs)

    near-reached : (best : List Way) → near x n best ≡ true → x ≤ largest (Route.reached best)
    near-reached [] h = cc
    near-reached (v ∷ vs) h = ground (arith, near-reached vs)

    route_of-IsShortest :
        (groups : Groups) (best finals : List Way)
        → (x ≡ m.num_layers → any (λ w. leb w.hops n) finals ≡ true)
        → x ≤ largest (Route.reached best)
        → All (λ v. v.hops ≡ length v.path) finals
        → IsShortest x n (Route.route_of groups best finals)
    route_of-IsShortest groups best [] at le counted = (λ e. false≢true (at e), le)
    route_of-IsShortest groups best (v ∷ vs) at le counted = λ e.
        let same = least_from-All (λ w. w.hops ≡ length w.path) v vs counted.0 counted.1 in
        omega (
          arith,
          least_from-le v vs (at e),
          same,
          length-map (Route.hop_of groups) (Route.least_from v vs).path,
        )

abbrev AnyPeer : PeerRecord → Type 0
AnyPeer r = Unit

-- On a manifest whose boundaries rise, where live peers serve every window of a chain that runs from the
-- start to a layer: if the layer is the end of the model, `best_route` finds a route, with at most as many
-- hops; and where it finds none, the layer is at most the one that it names.
pub best_route-IsShortest :
    (m : Manifest) (live : List PeerRecord) (prefer : Option String) (now start x : ℕ)
    (ws : List Window)
    → Rising m.boundaries
    → Tiles start x ws
    → All (λ w. is_served m live w ≡ true) ws
    → IsShortest m x (length ws) (Route.best_route m live prefer now start)
unfolding Route.best_route
best_route-IsShortest m live prefer now start x ws rising tiles served =
    let P = AnyPeer in
    let best = ways P m live prefer now start in
    let there : near x (length ws) best ≡ true =
      subst (λ k. near x k best ≡ true) (omega arith)
        (explore-Tiles now prefer m.boundaries (groups_of P m live prefer now start)
          (Route.origin start ∷ []) start x 0 ws rising tiles (served-Start m live ws served)
          (served-groups m live ws served) (ground arith)) in
    route_of-IsShortest m x (length ws) _ best (keep_if (λ v. v.at == m.num_layers) best)
      (near-final m x (length ws) best there) (near-reached m x (length ws) best there)
      (finals-counted best
        (All-counted P m start best (ways-All P m live prefer now start (All-Unit live))))
  where
    All-Unit : (rs : List PeerRecord) → All AnyPeer rs
    All-Unit [] = tt
    All-Unit (r ∷ rs) = (tt, All-Unit rs)

    All-counted :
        (P : PeerRecord → Type 0) (m : Manifest) (start : ℕ) (vs : List Way)
        → All (IsWay P m start) vs
        → All (λ v. v.hops ≡ length v.path) vs
    All-counted P m start [] h = tt
    All-counted P m start (v ∷ vs) h = (h.0.counted, All-counted P m start vs h.1)

    finals-counted :
        (vs : List Way)
        → All (λ v. v.hops ≡ length v.path) vs
        → All (λ v. v.hops ≡ length v.path) (keep_if (λ v. v.at == m.num_layers) vs)
    finals-counted vs h = All-keep_if _ (λ v. v.at == m.num_layers) vs h
