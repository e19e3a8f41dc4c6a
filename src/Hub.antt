-- ===== src/Hub.antt =====
-- commonnet/hub.py: `plan_segments`, which groups the byte ranges of a download.
-- A tuple is its two offsets; the rest of it is left out.
pub mod Whole
mod Tests
use common_network.Prelude.{
  ℕ, ◌+◌, List, [], ◌∷◌, ◌++◌, Bool, ◌&&◌, ◌||◌, ◌==◌, number_eq, ltb, leb, if◌then◌else◌,
}
use common_network.Prelude.Sort.{sort_by}

abbrev pub Range : Type 0
Range = ℕ × ℕ

-- The order of Python's tuples
abbrev pub range_le : Range → Range → Bool
range_le (a, b) (c, d) = ltb a c || (a == c && leb b d)

-- The loop, with the start of the first range of the last segment, the end of its last range, and the segment
unfoldable pub segments_from : ℕ → ℕ → ℕ → ℕ → List Range → List Range → List (List Range)
segments_from bridge cap start end seg [] = seg ∷ []
segments_from bridge cap start end seg (t ∷ ts) =
    if leb t.0 (end + bridge) && leb t.1 (start + cap)
    then segments_from bridge cap start t.1 (seg ++ t ∷ []) ts
    else seg ∷ segments_from bridge cap t.0 t.1 (t ∷ []) ts

abbrev pub segments_of : ℕ → ℕ → List Range → List (List Range)
segments_of bridge cap [] = []
segments_of bridge cap (t ∷ ts) = segments_from bridge cap t.0 t.1 (t ∷ []) ts

unfoldable pub plan_segments : List Range → ℕ → ℕ → List (List Range)
plan_segments items bridge cap = segments_of bridge cap (sort_by range_le items)
