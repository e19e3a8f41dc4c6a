-- ===== src/Mesh/Placement/Route/Tests.antt =====
-- The route over a few peers of a small model, and the theorems at it.
use common_network.Prelude.{◌≡◌, refl, true, map, String, List, [], ◌∷◌, none, All, arith}
use common_network.Prelude.Dict.{lookup}
use common_network.Prelude.Sort.{sort_by}
use common_network.Prelude.Text.{text_gt}
use common_network.Mesh.Sample.{three_stages, peer_on}
use common_network.Mesh.Records.{PeerRecord}
use common_network.Mesh.Manifest
use common_network.Mesh.Manifest.Tests.{three_stages-Rising}
use common_network.Mesh.Placement
use common_network.Mesh.Placement.{Window, serves}
use common_network.Mesh.Placement.Route
use common_network.Mesh.Placement.Route.{found, no_route}
use common_network.Mesh.Placement.Route.Found.{IsRoute, best_route-IsRoute}
use common_network.Mesh.Placement.Route.Shortest.{is_served, IsShortest, best_route-IsShortest}

abbrev peers : List PeerRecord
peers =
    peer_on "p" (0, 2)
    ∷ peer_on "q" (0, 4)
    ∷ peer_on "r" (2, 6)
    ∷ peer_on "s" (4, 6)
    ∷ peer_on "t" (4, 6)
    ∷ []

abbrev IsPeer : PeerRecord → Type 0
IsPeer r = r.network ≡ "net"

abbrev two_hops : List Window
two_hops = (0, 4) ∷ (4, 6) ∷ []

two_hops-served : All (λ w. is_served three_stages peers w ≡ true) two_hops
unfolding Manifest.is_window
two_hops-served = (refl, (refl, tt))

best_route-IsRoute_example :
    IsRoute IsPeer three_stages peers none 1000 0 (Route.best_route three_stages peers none 1000 0)
best_route-IsRoute_example =
    best_route-IsRoute IsPeer three_stages peers none 1000 0
      (refl, (refl, (refl, (refl, (refl, tt)))))

best_route-IsShortest_example :
    IsShortest three_stages 6 2 (Route.best_route three_stages peers none 1000 0)
best_route-IsShortest_example =
    best_route-IsShortest three_stages peers none 1000 0 6 two_hops three_stages-Rising
      (refl, omega arith, (refl, omega arith, refl)) two_hops-served

-- Nobody serves the end: the chains reach layer 4.
to_layer_four :
    Route.best_route three_stages (peer_on "p" (0, 2) ∷ peer_on "q" (0, 4) ∷ []) none 1000 0
    ≡ no_route 4
unfolding Route.best_route Route.explore Route.explore_ways Route.explore_groups Route.group_all
    Placement.serving Manifest.is_window Route.put_in Route.improve Route.hop_on
to_layer_four = refl

-- The hops' windows, with the names of the peer and of the ones that stand in for it
abbrev names : Route.Route → List (Window × (String × List String))
names (found hops) = map (λ h. (h.window, (h.primary.peer, map (λ r. r.peer) h.alternates))) hops
names (no_route b) = []

in_two_hops :
    names (Route.best_route three_stages peers none 1000 0)
    ≡ ((0, 2), ("p", [])) ∷ ((2, 6), ("r", [])) ∷ []
unfolding Route.best_route Route.explore Route.explore_ways Route.explore_groups Route.group_all
    Placement.serving Manifest.is_window Route.put_in Route.improve Route.hop_on Route.pick_from
    Route.penalty text_gt Route.least_from Route.hop_of sort_by lookup
in_two_hops = refl
