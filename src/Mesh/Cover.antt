-- ===== src/Mesh/Cover.antt =====
-- The two checks that windows cover the model: `check_cover` of commonnet/mesh/assign.py, for windows in
-- any order, and `check_route` of commonnet/client.py, for endpoints in the order of the route.
pub mod Once
pub mod Stages
mod Tests
use common_network.Prelude.{
  ℕ, List, [], ◌∷◌, Bool, true, false, ◌&&◌, ◌||◌, ◌==◌, number_eq, ltb, leb, min, if◌then◌else◌,
  not,
}
use common_network.Prelude.Sort.{sort_by}
use common_network.Mesh.Manifest.{Manifest, is_window}

abbrev pub Window : Type 0
Window = ℕ × ℕ

pub data Cover : Type 0 where
  covered : Cover
  off_boundary : ℕ → ℕ → Cover
  no_window : ℕ → ℕ → Cover
  assigned_twice : ℕ → ℕ → Cover

-- The order of Python's tuples
abbrev pub before : Window → Window → Bool
before (a, b) (c, d) = ltb a c || (a == c && leb b d)

module _ (m : Manifest) where
  -- The loop of `check_cover` from a position on, and the check at its end.
  unfoldable pub cover_from : ℕ → List Window → Cover
  cover_from position [] =
      if position == m.num_layers then covered else no_window position m.num_layers
  cover_from position ((a, b) ∷ ws) =
      let rest = cover_from b ws in
      if not (is_window m a b)
      then off_boundary a b
      else if ltb position a
      then no_window position a
      else if ltb a position
      then assigned_twice a (min b position)
      else rest

  unfoldable pub check_cover : List Window → Cover
  check_cover windows = cover_from 0 (sort_by before windows)

pub data Route : Type 0 where
  valid : Route
  not_contiguous : Window → ℕ → Route
  covers_only : ℕ → Route

-- The loop of `check_route` from a position on.
unfoldable pub route_from : ℕ → ℕ → List Window → Route
route_from num_layers pos [] = if not (pos == num_layers) then covers_only pos else valid
route_from num_layers pos ((start, end) ∷ eps) =
    let rest = route_from num_layers end eps in
    if not (start == pos) || leb end start then not_contiguous (start, end) pos else rest

unfoldable pub check_route : List Window → ℕ → Route
check_route endpoints num_layers = route_from num_layers 0 endpoints
