-- ===== src/Hub/Whole.antt =====
-- commonnet/hub.py: the segments hold every range once, in order, and keep to the cap.
use common_network.Prelude.{
  ℕ, ◌+◌, ◌≤◌, ◌≡◌, refl, ap, ◌∙◌, List, [], ◌∷◌, ◌++◌, ◌&&◌, leb, All, All-append, by_test, arith,
}
use mathlib.Core.List.{append_assoc}
use common_network.Prelude.Sort.{sort_by}
use common_network.Hub
use common_network.Hub.{Range, range_le}

abbrev pub concat : List (List Range) → List Range
concat [] = []
concat (seg ∷ segs) = seg ++ concat segs

-- The ranges after the first end at most so far behind the start of the first.
abbrev pub IsSegment : ℕ → List Range → Type 0
IsSegment cap [] = ⊥
IsSegment cap (t ∷ ts) = All (λ u. u.1 ≤ t.0 + cap) ts

module _ (bridge cap : ℕ) where
  abbrev IsWhole : List Range → List (List Range) → Type 0
  IsWhole ts segs = (concat segs ≡ ts) × All (IsSegment cap) segs

  segments_from-IsWhole :
      (ts : List Range) (t : Range) (end : ℕ) (seg : List Range)
      → All (λ u. u.1 ≤ t.0 + cap) seg
      → IsWhole (t ∷ seg ++ ts) (Hub.segments_from bridge cap t.0 end (t ∷ seg) ts)
  unfolding Hub.segments_from
  segments_from-IsWhole [] t end seg h = (refl, (h, tt))
  segments_from-IsWhole (u ∷ ts) t end seg h =
      by_test (IsWhole (t ∷ seg ++ u ∷ ts)) (leb u.0 (end + bridge) && leb u.1 (t.0 + cap)) _ _
        (λ joins.
          let (whole, all) =
            segments_from-IsWhole ts t u.1 (seg ++ u ∷ [])
              (All-append _ seg (u ∷ []) h (ground (arith, joins), tt)) in
          (whole ∙ ap (◌∷◌ t) (append_assoc seg (u ∷ []) ts), all))
        (λ apart.
          let (whole, all) = segments_from-IsWhole ts u u.1 [] tt in
          (ap (λ z. t ∷ seg ++ z) whole, (h, all)))

  segments_of-IsWhole : (ts : List Range) → IsWhole ts (Hub.segments_of bridge cap ts)
  segments_of-IsWhole [] = (refl, tt)
  segments_of-IsWhole (t ∷ ts) = segments_from-IsWhole ts t t.1 [] tt

  -- The segments one after the other are the sorted ranges, and within a segment every range but the first
  -- ends at most the cap behind the start of the first.
  pub plan_segments-IsSegment :
      (items : List Range)
      → (concat (Hub.plan_segments items bridge cap) ≡ sort_by range_le items)
        × All (IsSegment cap) (Hub.plan_segments items bridge cap)
  unfolding Hub.plan_segments
  plan_segments-IsSegment items = segments_of-IsWhole (sort_by range_le items)
