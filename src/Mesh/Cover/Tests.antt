-- ===== src/Mesh/Cover/Tests.antt =====
-- The checks of a cover on a small model, and the theorems at it.
use common_network.Prelude.{ℕ, ◌≡◌, ◌↔◌, refl, List, [], ◌∷◌, count_if, All}
use common_network.Prelude.Sort.{sort_by, insert_by}
use common_network.Mesh.Sample.{three_stages}
use common_network.Mesh.Manifest.{is_window, stages}
use common_network.Mesh.Manifest.Tests.{sample_valid}
use common_network.Mesh.Cover.Stages.{check_cover-stages}
use common_network.Mesh.Cover
use common_network.Mesh.Cover.{
  Window, covered, valid, not_contiguous, assigned_twice, off_boundary, no_window,
}
use common_network.Mesh.Cover.Once.{serves, once_below, OnStages, check_cover-once}

abbrev two_windows : List Window
two_windows = (4, 6) ∷ (0, 4) ∷ []

any_order : Cover.check_cover three_stages two_windows ≡ covered
unfolding Cover.check_cover Cover.cover_from is_window sort_by insert_by
any_order = refl

overlap : Cover.check_cover three_stages ((0, 4) ∷ (2, 6) ∷ []) ≡ assigned_twice 2 4
unfolding Cover.check_cover Cover.cover_from is_window sort_by insert_by
overlap = refl

off_stage : Cover.check_cover three_stages ((0, 3) ∷ (3, 6) ∷ []) ≡ off_boundary 0 3
unfolding Cover.check_cover Cover.cover_from is_window sort_by insert_by
off_stage = refl

route_order : Cover.check_route two_windows 6 ≡ not_contiguous (4, 6) 0
unfolding Cover.check_route Cover.route_from
route_order = refl

check_cover-once_example : (Cover.check_cover three_stages two_windows ≡ covered) ↔ (
    All (OnStages three_stages) two_windows
    × ((l : ℕ) → count_if (serves l) two_windows ≡ once_below l 6))
check_cover-once_example = check_cover-once three_stages two_windows

check_cover-stages_example : Cover.check_cover three_stages (stages three_stages) ≡ covered
check_cover-stages_example = check_cover-stages three_stages sample_valid
