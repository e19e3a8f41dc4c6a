-- ===== src/Mesh/Cover/Stages.antt =====
-- The stages of a manifest that `validate` accepts are a cover of its model.
use common_network.Prelude.{
  ℕ, ◌≤◌, ◌≡◌, refl, List, [], ◌∷◌, length, none, true, ◌==◌, number_eq, any, arith, All,
}
use mathlib.Core.Path.{subst}
use common_network.Mesh.Manifest
use common_network.Mesh.Manifest.{Manifest, stages_of, stages, is_window, first_of, last_of}
use common_network.Mesh.Manifest.Valid.{Rising, validate-IsLaidOut}
use common_network.Mesh.Cover
use common_network.Mesh.Cover.{covered}
use common_network.Mesh.Cover.Once.{Tiles, Tiles-once, OnStages, check_cover-once}

stages_of-Tiles :
    (a : ℕ) (bs : List ℕ) → Rising (a ∷ bs) → Tiles a (last_of (a ∷ bs)) (stages_of (a ∷ bs))
unfolding stages_of
stages_of-Tiles a [] h = refl
stages_of-Tiles a (b ∷ bs) h = (refl, h.0.0, stages_of-Tiles b bs h.1)

-- The list's members are all among the boundaries.
abbrev Among : Manifest → List ℕ → Type 0
Among m = All (λ x. any (λ y. y == x) m.boundaries ≡ true)

stages_of-OnStages :
    (m : Manifest) (bs : List ℕ) → Rising bs → Among m bs → All (OnStages m) (stages_of bs)
unfolding stages_of is_window
stages_of-OnStages m [] r h = tt
stages_of-OnStages m (a ∷ []) r h = tt
stages_of-OnStages m (a ∷ b ∷ bs) r h = (ground arith, stages_of-OnStages m (b ∷ bs) r.1 h.1)

pub All-among :
    (bs cs : List ℕ)
    → ((x : ℕ) → any (λ y. y == x) cs ≡ true → any (λ y. y == x) bs ≡ true)
    → All (λ x. any (λ y. y == x) bs ≡ true) cs
All-among bs [] h = tt
All-among bs (c ∷ cs) h = (h c (ground arith), All-among bs cs (λ x k. h x (ground arith)))

stages-Tiles :
    (n : ℕ) (bs : List ℕ)
    → 2 ≤ length bs
    → first_of bs ≡ 0
    → last_of bs ≡ n
    → Rising bs
    → Tiles 0 n (stages_of bs)
stages-Tiles n [] two zero_first end h = absurd (omega arith)
stages-Tiles n (a ∷ bs) two zero_first end h =
    subst (λ z. Tiles z n (stages_of (a ∷ bs))) zero_first
      (subst (λ z. Tiles a z (stages_of (a ∷ bs))) end (stages_of-Tiles a bs h))

-- The stages of every manifest that `validate` accepts pass `check_cover`.
pub check_cover-stages :
    (m : Manifest) → Manifest.validate m ≡ none → Cover.check_cover m (stages m) ≡ covered
check_cover-stages m ok =
    let v = validate-IsLaidOut m ok in
    let tiles = stages-Tiles m.num_layers m.boundaries v.two v.from_zero v.to_end v.rising in
    (check_cover-once m (stages m)).1 (
      stages_of-OnStages m m.boundaries v.rising (All-among m.boundaries m.boundaries (λ x h. h)),
      λ l. Tiles-once l 0 m.num_layers (stages m) tiles (omega arith),
    )
