-- ===== src/Mesh/Assign/Plans/Covers.antt =====
-- commonnet/mesh/assign.py: a plan that `plan` returns covers the model.
use common_network.Prelude.{
  ℕ, ◌≤◌, ◌<◌, ◌≡◌, refl, ◌∙◌, String, List, [], ◌∷◌, length, Option, none, some, true, ltb, any,
  All, arith, Bool-cases, inl, inr, number_eq, ◌==◌,
}
use mathlib.Core.Path.{subst}
use mathlib.Core.Option.{none-ne-some, some-injective}
use common_network.Prelude.Dict.{Dict}
use common_network.Mesh.Records.{PeerRecord}
use common_network.Mesh.Manifest
use common_network.Mesh.Manifest.{Manifest, first_of, last_of}
use common_network.Mesh.Manifest.Valid.{Rising, IsLaidOut, validate-IsLaidOut}
use common_network.Mesh.Cover
use common_network.Mesh.Cover.{Window, Cover, covered}
use common_network.Mesh.Cover.Once.{Tiles, Tiles-once, check_cover-once}
use common_network.Mesh.Cover.Stages.{All-among}
use common_network.Mesh.Assign.{assign, tilings, end_of, numbered, peers_of}
use common_network.Mesh.Assign.Seeds.{AreNumbered, numbered-AreNumbered}
use common_network.Mesh.Assign.Tilings.{IsTiling, tilings-All}
use common_network.Mesh.Assign.Served.{IsServed, assign-IsServed}
use common_network.Mesh.Assign.Plans
use common_network.Mesh.Assign.Plans.{
  Plan, Assignment, planned, too_many_stages, uncovered, bad_cover, max_stages, Choice, named,
}

end_of-last : (lo : ℕ) (bs : List ℕ) → end_of lo bs ≡ last_of (lo ∷ bs)
end_of-last lo [] = refl
end_of-last lo (b ∷ bs) = end_of-last b bs

tilings-IsTiling :
    (m : Manifest) → IsLaidOut m → All (IsTiling m 0 m.num_layers) (tilings m.boundaries)
tilings-IsTiling m v =
    tilings_of m.boundaries v.two v.from_zero v.to_end v.rising
      (All-among m.boundaries m.boundaries (λ x h. h))
  where
    tilings_of :
        (bs : List ℕ)
        → 2 ≤ length bs
        → first_of bs ≡ 0
        → last_of bs ≡ m.num_layers
        → Rising bs
        → All (λ x. any (λ y. y == x) m.boundaries ≡ true) bs
        → All (IsTiling m 0 m.num_layers) (tilings bs)
    tilings_of [] two from to rising among = absurd (omega arith)
    tilings_of (b ∷ bs) two from to rising among =
        subst (λ x. All (IsTiling m x m.num_layers) (tilings (b ∷ bs))) from
          (subst (λ x. All (IsTiling m b x) (tilings (b ∷ bs))) (end_of-last b bs ∙ to)
            (tilings-All m b bs among.0 among.1 rising (omega arith)))

module _ (m : Manifest) (peers : Dict ℕ PeerRecord) (previous : Dict ℕ Window) (v : IsLaidOut m)
    (listed : AreNumbered peers) where
  abbrev IsChoice : Choice → Type 0
  IsChoice c = IsTiling m 0 m.num_layers c.tiling × IsServed m peers c.tiling c.windows

  better_of-IsChoice :
      (best : Option Choice) (d : Choice)
      → ((c : Choice) → best ≡ some c → IsChoice c)
      → IsChoice d
      → (c : Choice) → Plans.better_of m peers previous best d ≡ some c
      → IsChoice c
  better_of-IsChoice none d h new c e = subst IsChoice (some-injective _ _ e) new
  better_of-IsChoice (some b) d h new c e = elim (Bool-cases (Plans.key_lt d.key b.key)) [
    | inl better ↦ subst IsChoice (some-injective _ _ (rw better at e)) new
    | inr not_better ↦ h c (rw not_better at e)
  ]

  consider-IsChoice :
      (best : Option Choice) (tiling : List Window) (o : Option (Dict ℕ Window × Dict Window ℕ))
      → ((c : Choice) → best ≡ some c → IsChoice c)
      → IsTiling m 0 m.num_layers tiling
      → assign m peers previous tiling ≡ o
      → (c : Choice) → Plans.consider m peers previous best tiling o ≡ some c
      → IsChoice c
  consider-IsChoice best tiling none h t e = h
  consider-IsChoice best tiling (some (windows, chain)) h t e =
      better_of-IsChoice best _ h
        (t, assign-IsServed m peers previous listed v.rising tiling windows chain e)

  best_from-IsChoice :
      (ts : List (List Window)) (best : Option Choice)
      → ((c : Choice) → best ≡ some c → IsChoice c)
      → All (IsTiling m 0 m.num_layers) ts
      → (c : Choice) → Plans.best_from m peers previous best ts ≡ some c
      → IsChoice c
  unfolding Plans.best_from
  best_from-IsChoice [] best h all = h
  best_from-IsChoice (tiling ∷ ts) best h all =
      best_from-IsChoice ts
        (Plans.consider m peers previous best tiling (assign m peers previous tiling))
        (consider-IsChoice best tiling (assign m peers previous tiling) h all.0 refl) all.1

-- The chain cuts the model into windows, each the window of a usable live peer, so of a peer of its own, with
-- the memory for it; the plan names the windows of all peers that have one, each with the memory for its window.
abbrev pub IsCovering : Manifest → List PeerRecord → Plan → Type 0
IsCovering m live p =
    let peers = numbered 0 (peers_of live) in
    Tiles 0 m.num_layers p.chain
    × ((windows : Dict ℕ Window) × (p.windows ≡ named peers [] windows)
        × IsServed m peers p.chain windows)

module _ (m : Manifest) (live : List PeerRecord)
    (previous : Option (Dict String (Option Window))) where
  best_choice-IsChoice :
      (c : Choice)
      → Manifest.validate m ≡ none
      → Plans.best_choice m live previous ≡ some c
      → IsTiling m 0 m.num_layers c.tiling
        × IsServed m (numbered 0 (peers_of live)) c.tiling c.windows
  unfolding Plans.best_choice
  best_choice-IsChoice c ok e =
      let v = validate-IsLaidOut m ok in
      best_from-IsChoice m (numbered 0 (peers_of live)) _ v (numbered-AreNumbered (peers_of live))
        (tilings m.boundaries) none (λ d f. absurd (none-ne-some d f)) (tilings-IsTiling m v) c e

  -- What `plan` gives is no failure of the check at its end, and if it is a plan, then it covers the model.
  abbrev pub IsSound : Assignment → Type 0
  IsSound (planned p) = IsCovering m live p
  IsSound (too_many_stages n) = (n ≡ length (Manifest.stages m)) × (max_stages < n)
  IsSound (uncovered r) = Unit
  IsSound (bad_cover c) = ⊥

  finish-IsSound :
      (o : Option Choice)
      → ((c : Choice)
          → o ≡ some c
          → IsTiling m 0 m.num_layers c.tiling
            × IsServed m (numbered 0 (peers_of live)) c.tiling c.windows)
      → IsSound (Plans.finish m (peers_of live) o)
  unfolding Plans.plan_of
  finish-IsSound none h = tt
  finish-IsSound (some c) h =
      let (tiling, served) = h c refl in
      let whole : Cover.check_cover m c.tiling ≡ covered =
        (check_cover-once m c.tiling).1
          (tiling.1, λ l. Tiles-once l 0 m.num_layers c.tiling tiling.0 (omega arith)) in
      rw whole (tiling.0, (c.windows, refl, served))

  -- On a manifest that `validate` accepts, `plan` never fails at the check at its end, it refuses for the number
  -- of stages only where there are more than the bound, and a plan that it returns has a chain that cuts the model into windows, each of them the window of a peer of its own, and
  -- every peer that has a window is live, usable and has the memory for it.
  pub plan-IsSound : Manifest.validate m ≡ none → IsSound (Plans.plan m live previous)
  unfolding Plans.plan
  plan-IsSound ok = elim (Bool-cases (ltb Plans.max_stages (length (Manifest.stages m)))) [
    | inl many ↦ rw many (refl, ground (arith, many))
    | inr few ↦
        rw few
          (finish-IsSound (Plans.best_choice m live previous) (λ c e. best_choice-IsChoice c ok e))
  ]
