-- ===== src/Mesh/Assign/Tilings.antt =====
-- commonnet/mesh/assign.py: what `_tilings` lists cuts the model at its stage boundaries.
use common_network.Prelude.{
  ℕ, zero, suc, ◌/◌, ◌%◌, ◌<◌, ◌≡◌, refl, List, [], ◌∷◌, length, true, ◌==◌, number_eq, any, All,
  arith, either_of,
}
use common_network.Prelude.Sort.{All-sort_by}
use common_network.Mesh.Manifest.{Manifest, is_window}
use common_network.Mesh.Manifest.Valid.{Rising}
use common_network.Mesh.Cover.{Window}
use common_network.Mesh.Cover.Once.{Tiles, OnStages}
use common_network.Mesh.Assign
use common_network.Mesh.Assign.{between, cuts_of, inner_of, end_of, tiling_of}

-- The cuts rise from one boundary to another.
abbrev Steps : ℕ → List ℕ → ℕ → Type 0
Steps lo [] hi = lo < hi
Steps lo (c ∷ cs) hi = lo < c × Steps c cs hi

Steps-below : (lo' lo hi : ℕ) (cs : List ℕ) → lo' < lo → Steps lo cs hi → Steps lo' cs hi
Steps-below lo' lo hi [] lt h = omega arith
Steps-below lo' lo hi (c ∷ cs) lt h = (omega arith, h.1)

cuts_of-Steps : (lo hi mask : ℕ) (cs : List ℕ) → Steps lo cs hi → Steps lo (cuts_of mask cs) hi
unfolding cuts_of
cuts_of-Steps lo hi mask [] h = h
cuts_of-Steps lo hi mask (c ∷ cs) h =
    let rest = cuts_of-Steps c hi (mask / 2) cs h.1 in
    either_of (λ xs. Steps lo xs hi) (mask % 2 == 1) (c ∷ cuts_of (mask / 2) cs)
      (cuts_of (mask / 2) cs) (h.0, rest) (Steps-below lo c hi (cuts_of (mask / 2) cs) h.0 rest)

inner_of-Steps :
    (lo : ℕ) (bs : List ℕ)
    → Rising (lo ∷ bs)
    → 0 < length bs
    → Steps lo (inner_of bs) (end_of lo bs)
inner_of-Steps lo [] h some_after = absurd (omega arith)
inner_of-Steps lo (b ∷ []) h some_after = h.0.0
inner_of-Steps lo (b ∷ c ∷ bs) h some_after = (h.0.0, inner_of-Steps b (c ∷ bs) h.1 (omega arith))

between-Tiles : (lo hi : ℕ) (cs : List ℕ) → Steps lo cs hi → Tiles lo hi (between lo cs hi)
between-Tiles lo hi [] h = (refl, h, refl)
between-Tiles lo hi (c ∷ cs) h = (refl, h.0, between-Tiles c hi cs h.1)

module _ (m : Manifest) where
  abbrev IsBoundary : ℕ → Type 0
  IsBoundary x = any (λ y. y == x) m.boundaries ≡ true

  cuts_of-All : (mask : ℕ) (cs : List ℕ) → All IsBoundary cs → All IsBoundary (cuts_of mask cs)
  unfolding cuts_of
  cuts_of-All mask [] h = tt
  cuts_of-All mask (c ∷ cs) h =
      let rest = cuts_of-All (mask / 2) cs h.1 in
      either_of (All IsBoundary) (mask % 2 == 1) (c ∷ cuts_of (mask / 2) cs) (cuts_of (mask / 2) cs)
        (h.0, rest) rest

  inner_of-All : (bs : List ℕ) → All IsBoundary bs → All IsBoundary (inner_of bs)
  inner_of-All [] h = tt
  inner_of-All (b ∷ []) h = tt
  inner_of-All (b ∷ c ∷ bs) h = (h.0, inner_of-All (c ∷ bs) h.1)

  end_of-IsBoundary :
      (lo : ℕ) (bs : List ℕ) → IsBoundary lo → All IsBoundary bs → IsBoundary (end_of lo bs)
  end_of-IsBoundary lo [] at h = at
  end_of-IsBoundary lo (b ∷ bs) at h = end_of-IsBoundary b bs h.0 h.1

  between-OnStages :
      (lo hi : ℕ) (cs : List ℕ)
      → IsBoundary lo
      → IsBoundary hi
      → All IsBoundary cs
      → Steps lo cs hi
      → All (OnStages m) (between lo cs hi)
  unfolding is_window
  between-OnStages lo hi [] at_lo at_hi h steps = (ground arith, tt)
  between-OnStages lo hi (c ∷ cs) at_lo at_hi h steps =
      (ground arith, between-OnStages c hi cs h.0 at_hi h.1 steps.1)

  -- The windows follow one another over the model and lie on the stages.
  abbrev pub IsTiling : ℕ → ℕ → List Window → Type 0
  IsTiling lo hi ws = Tiles lo hi ws × All (OnStages m) ws

  tilings_from-All :
      (lo : ℕ) (bs : List ℕ) (mask n : ℕ)
      → IsBoundary lo
      → All IsBoundary bs
      → Rising (lo ∷ bs)
      → 0 < length bs
      → All (IsTiling lo (end_of lo bs)) (Assign.tilings_from lo bs mask n)
  unfolding Assign.tilings_from
  tilings_from-All lo bs mask zero at h rising some_after = tt
  tilings_from-All lo bs mask (suc n) at h rising some_after =
      let cs = cuts_of mask (inner_of bs) in
      let steps =
        cuts_of-Steps lo (end_of lo bs) mask (inner_of bs)
          (inner_of-Steps lo bs rising some_after) in
      (
        (
          between-Tiles lo (end_of lo bs) cs steps,
          between-OnStages lo (end_of lo bs) cs at (end_of-IsBoundary lo bs at h)
              (cuts_of-All mask (inner_of bs) (inner_of-All bs h)) steps,
        ),
        tilings_from-All lo bs (suc mask) n at h rising some_after,
      )

  pub tilings-All :
      (lo : ℕ) (bs : List ℕ)
      → IsBoundary lo
      → All IsBoundary bs
      → Rising (lo ∷ bs)
      → 0 < length bs
      → All (IsTiling lo (end_of lo bs)) (Assign.tilings (lo ∷ bs))
  unfolding Assign.tilings
  tilings-All lo bs at h rising some_after =
      All-sort_by _ (IsTiling lo (end_of lo bs)) _
        (tilings_from-All lo bs 0 _ at h rising some_after)
