-- ===== src/Mesh/Assign/Tests.antt =====
-- The plan for a few peers of a small model, and the theorems at it.
use common_network.Prelude.{
  ℕ, zero, suc, ◌<◌, ◌≡◌, refl, true, List, [], ◌∷◌, none, some, arith, number_eq,
}
use mathlib.Core.Option.{none-ne-some}
use common_network.Prelude.Dict.{lookup, insert}
use common_network.Prelude.Sort.{sort_by, insert_by}
use common_network.Mesh.Sample.{three_stages, peer_on}
use common_network.Mesh.Records.{PeerRecord}
use common_network.Mesh.Manifest.Tests.{sample_valid}
use common_network.Mesh.Cover.{Window}
use common_network.Mesh.Assign
use common_network.Mesh.Assign.Match
use common_network.Mesh.Assign.Match.{Matching, is_in}
use common_network.Mesh.Assign.Match.Sound.{IsMatching}
use common_network.Mesh.Assign.Match.Fuel.{match_all-fuel}
use common_network.Mesh.Assign.Plans
use common_network.Mesh.Assign.Plans.{planned}
use common_network.Mesh.Assign.Plans.Covers.{IsSound, plan-IsSound}

-- Both peers may serve the first window, only the first of them the second.
abbrev two_peers : Window → List ℕ
two_peers (zero, b) = 0 ∷ 1 ∷ []
two_peers (suc a, b) = 0 ∷ []

abbrev unmatched : Matching
unmatched = record { owner = []; match = [] }

abbrev two_windows : List Window
two_windows = (0, 4) ∷ (4, 6) ∷ []

unmatched-IsMatching : IsMatching two_peers unmatched
unfolding lookup
unmatched-IsMatching = record {
  owned = λ w i e. absurd (none-ne-some i e);
  drawn = λ w i e. absurd (none-ne-some i e);
  once = λ w. omega arith;
}

two_peers-below : (w : Window) (i : ℕ) → is_in i (two_peers w) ≡ true → i < 2
two_peers-below (zero, b) i h = ground arith
two_peers-below (suc a, b) i h = ground arith

match_all-fuel_example :
    Match.match_all two_peers 8 two_windows unmatched
    ≡ Match.match_all two_peers 3 two_windows unmatched
match_all-fuel_example =
    match_all-fuel two_peers 2 two_peers-below 5 two_windows unmatched unmatched-IsMatching

-- The first peer is moved on to the second window.
moved_on :
    Match.match_all two_peers 3 two_windows unmatched
    ≡ some
        (record { owner = (0, (4, 6)) ∷ (1, (0, 4)) ∷ []; match = ((0, 4), 1) ∷ ((4, 6), 0) ∷ [] })
unfolding Match.match_all lookup Match.augment Match.try_each Match.take_over insert
moved_on = refl

abbrev peers : List PeerRecord
peers = peer_on "p" (0, 4) ∷ peer_on "q" (0, 4) ∷ []

plan-IsSound_example : IsSound three_stages peers none (Plans.plan three_stages peers none)
plan-IsSound_example = plan-IsSound three_stages peers none sample_valid

-- Every way to cut the model, the ways with fewer windows first
four_tilings :
    Assign.tilings (0 ∷ 2 ∷ 4 ∷ 6 ∷ [])
    ≡ ((0, 6) ∷ [])
      ∷ ((0, 2) ∷ (2, 6) ∷ [])
      ∷ ((0, 4) ∷ (4, 6) ∷ [])
      ∷ ((0, 2) ∷ (2, 4) ∷ (4, 6) ∷ [])
      ∷ []
unfolding Assign.tilings Assign.tilings_from Assign.cuts_of sort_by insert_by
four_tilings = refl
