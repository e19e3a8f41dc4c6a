-- ===== src/Mesh/Placement/Route.antt =====
-- commonnet/mesh/placement.py: the route that `best_route` finds over the live peers.
-- Times are whole seconds and penalties are counted in sixtieths, so that no comparison is rounded.
pub mod Sound
pub mod Found
pub mod Near
pub mod Shortest
mod Tests
use common_network.Prelude.{
  ℕ, ◌+◌, ◌-◌, min, String, List, [], ◌∷◌, ◌++◌, map, Option, none, some, Bool, true, false, ◌&&◌,
  ◌||◌, not, ◌==◌, number_eq, text_eq, pair_eq, ltb, leb, if◌then◌else◌, any, keep_if,
}
use common_network.Prelude.Dict.{Dict, lookup}
use common_network.Prelude.Sort.{sort_by}
use common_network.Prelude.Text.{text_gt, text_le}
use common_network.Mesh.Records.{PeerRecord}
use common_network.Mesh.Manifest.{Manifest, largest}
use common_network.Mesh.Placement.{Window, window_of, serving, add}

abbrev pub Groups : Type 0
Groups = Dict Window (List PeerRecord)

pub record Hop : Type 0 where
  pub window : Window
  pub primary : PeerRecord
  pub alternates : List PeerRecord

-- `NoRoute` holds the farthest layer that a chain reaches.
pub data Route : Type 0 where
  found : List Hop → Route
  no_route : ℕ → Route

abbrev pub other_backend : Option String → PeerRecord → Bool
other_backend none r = false
other_backend (some backend) r = not (r.backend == backend)

abbrev pub cost_if : Bool → ℕ → ℕ
cost_if b cost = if b then cost else 0

unfoldable pub penalty : PeerRecord → ℕ → Option String → Option String → ℕ
penalty r now previous prefer =
    min (now - r.ts) 60
    + cost_if (other_backend previous r) 30
    + cost_if (other_backend prefer r) 30
    + cost_if (r.backend == "cpu") 15

-- `groups.setdefault(window, []).append(r)`
unfoldable pub put_in : Window → PeerRecord → Groups → Groups
put_in w r [] = (w, r ∷ []) ∷ []
put_in w r ((v, peers) ∷ groups) =
    if v == w then (v, peers ++ (r ∷ [])) ∷ groups else (v, peers) ∷ put_in w r groups

unfoldable pub group_all : Groups → List PeerRecord → Groups
group_all groups [] = groups
group_all groups (r ∷ rs) = group_all (put_in (window_of r) r groups) rs

-- One state of the search, a boundary with the backend of the last hop, and the best way to it.
pub record Way : Type 0 where
  pub at : ℕ
  pub backend : Option String
  pub hops : ℕ
  pub cost : ℕ
  pub path : List (Window × PeerRecord)

abbrev pub same_backend : Option String → Option String → Bool
same_backend none none = true
same_backend none (some b) = false
same_backend (some a) none = false
same_backend (some a) (some b) = a == b

abbrev pub same_state : Way → Way → Bool
same_state v w = v.at == w.at && same_backend v.backend w.backend

-- By the hops and then by the penalty
abbrev pub cheaper : Way → Way → Bool
cheaper v w = ltb v.hops w.hops || (v.hops == w.hops && ltb v.cost w.cost)

-- `if state not in best or cost < best[state][:2]: best[state] = ...`
unfoldable pub improve : Way → List Way → List Way
improve v [] = v ∷ []
improve v (w ∷ ws) =
    let rest = improve v ws in
    if same_state v w then (if cheaper v w then v ∷ ws else w ∷ ws) else w ∷ rest

module _ (now : ℕ) (prefer : Option String) where
  -- `min(peers, key=lambda r: (_penalty(r, ...), r["peer"]))`
  abbrev pub preferred : Option String → PeerRecord → PeerRecord → Bool
  preferred previous r best =
      let p = penalty r now previous prefer in
      let q = penalty best now previous prefer in ltb p q || (p == q && text_gt best.peer r.peer)

  unfoldable pub pick_from : Option String → PeerRecord → List PeerRecord → PeerRecord
  pick_from previous best [] = best
  pick_from previous best (r ∷ rs) =
      pick_from previous (if preferred previous r best then r else best) rs

  -- The way that one more hop makes
  unfoldable pub hop_on : Way → Window → PeerRecord → Way
  hop_on v w pick = record {
    at = w.1;
    backend = some pick.backend;
    hops = v.hops + 1;
    cost = v.cost + penalty pick now v.backend prefer;
    path = v.path ++ ((w, pick) ∷ []);
  }

  abbrev pub hop_by : Way → Window → List PeerRecord → List Way → List Way
  hop_by v w [] best = best
  hop_by v w (r ∷ rs) best = improve (hop_on v w (pick_from v.backend r rs)) best

  unfoldable pub explore_groups : Way → Groups → List Way → List Way
  explore_groups v [] best = best
  explore_groups v ((w, peers) ∷ groups) best =
      explore_groups v groups (if w.0 == v.at then hop_by v w peers best else best)

  -- The ways at one boundary, as they are when the boundary's turn comes
  unfoldable pub explore_ways : ℕ → Groups → List Way → List Way → List Way
  explore_ways boundary groups [] best = best
  explore_ways boundary groups (v ∷ vs) best =
      explore_ways boundary groups vs
        (if v.at == boundary then explore_groups v groups best else best)

  unfoldable pub explore : List ℕ → Groups → List Way → List Way
  explore [] groups best = best
  explore (boundary ∷ bs) groups best = explore bs groups (explore_ways boundary groups best best)

-- Where the search has been: each state's boundary is in `reached`, in some order.
abbrev pub reached : List Way → List ℕ
reached best = map (λ v. v.at) best

-- `min(finals, key=...)`: the first of the least
unfoldable pub least_from : Way → List Way → Way
least_from best [] = best
least_from best (v ∷ vs) = least_from (if cheaper v best then v else best) vs

-- The replicas in the order in which they stand in for the primary
abbrev pub stands_before : PeerRecord → PeerRecord → PeerRecord → Bool
stands_before pick r s =
    let r_other = not (r.backend == pick.backend) in
    let s_other = not (s.backend == pick.backend) in
    (not r_other && s_other)
    || (not (r_other && not s_other) && (ltb s.ts r.ts || (s.ts == r.ts && text_le r.peer s.peer)))

abbrev pub peers_on : Option (List PeerRecord) → List PeerRecord
peers_on none = []
peers_on (some peers) = peers

unfoldable pub hop_of : Groups → Window × PeerRecord → Hop
hop_of groups (w, pick) =
    let others = keep_if (λ r. not (r.peer == pick.peer)) (peers_on (lookup w groups)) in
    record { window = w; primary = pick; alternates = sort_by (stands_before pick) others }

abbrev pub route_of : Groups → List Way → List Way → Route
route_of groups best [] = no_route (largest (reached best))
route_of groups best (v ∷ vs) = found (map (hop_of groups) (least_from v vs).path)

abbrev pub origin : ℕ → Way
origin start = record { at = start; backend = none; hops = 0; cost = 0; path = [] }

unfoldable pub best_route : Manifest → List PeerRecord → Option String → ℕ → ℕ → Route
best_route m live prefer now start =
    let groups = group_all [] (serving m live) in
    let best = explore now prefer m.boundaries groups (origin start ∷ []) in
    route_of groups best (keep_if (λ v. v.at == m.num_layers) best)
