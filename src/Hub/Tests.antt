-- ===== src/Hub/Tests.antt =====
-- The segments of a few ranges, and the theorem at them.
use common_network.Prelude.{◌≡◌, refl, List, [], ◌∷◌, All}
use common_network.Prelude.Sort.{sort_by, insert_by}
use common_network.Hub
use common_network.Hub.{Range, range_le}
use common_network.Hub.Whole.{concat, IsSegment, plan_segments-IsSegment}

abbrev ranges : List Range
ranges = (20, 30) ∷ (0, 10) ∷ (12, 18) ∷ (90, 95) ∷ []

two_bridged :
    Hub.plan_segments ranges 5 25
    ≡ ((0, 10) ∷ (12, 18) ∷ []) ∷ ((20, 30) ∷ []) ∷ ((90, 95) ∷ []) ∷ []
unfolding Hub.plan_segments Hub.segments_from sort_by insert_by
two_bridged = refl

plan_segments-IsSegment_example :
    (concat (Hub.plan_segments ranges 5 25) ≡ sort_by range_le ranges)
    × All (IsSegment 25) (Hub.plan_segments ranges 5 25)
plan_segments-IsSegment_example = plan_segments-IsSegment 5 25 ranges
