-- ===== src/Plan/Split/Optimal.antt =====
-- commonnet/plan.py: what `plan_split` chooses, and when it refuses.
use common_network.Prelude.{
  ℕ, ◌+◌, ◌-◌, ◌≤◌, ◌<◌, ◌≡◌, ◌↔◌, ◌⊎◌, inl, inr, refl, String, Bool, true, false, arith, Option,
  none, some, ltb→ge,
}
use common_network.Plan.Search.{
  IsGreater, nat_gt, nat_gt-IsGreater, search_from, IsBest, IsFound, search_from-IsBest_init,
  search_from-IsFound_init,
}
use common_network.Plan.Member.{Result, ok, err, Member, SplitPlan}
use common_network.Plan.Split
use mathlib.Core.Path.{subst}

module _ (num_layers : ℕ) (first second : Member) (kv ctx : ℕ) where
  abbrev pub Fits : ℕ → Type 0
  Fits b =
      (Split.used_first num_layers first second kv ctx b ≤ first.budget_bytes)
      × (Split.used_second num_layers first second kv ctx b ≤ second.budget_bytes)

  -- What an accepted plan promises: a split inside the model that fits both budgets.
  pub record IsPlan (p : SplitPlan) (a : ℕ) : Type 0 where
    pub at : p ≡ Split.split_at num_layers first second kv ctx a
    pub low : 0 < a
    pub high : a < num_layers
    pub fit : Fits a

  fits_iff : (b : ℕ) → (Split.fits num_layers first second kv ctx b ≡ true) ↔ Fits b
  unfolding Split.fits
  fits_iff b = ground arith

  module _ {ℓ} {S : Type ℓ} (gt : S → S → Bool) (score : ℕ → S) where
    abbrev gated : ℕ → Option S
    gated = Split.gated num_layers first second kv ctx score

    gated-Fits : (b : ℕ) → Fits b → gated b ≡ some (score b)
    unfolding Split.gated
    gated-Fits b f = ground (arith, fits_iff b)

    gated-some : (b : ℕ) (s : S) → gated b ≡ some s → Fits b × (s ≡ score b)
    unfolding Split.gated
    gated-some b s e = ground (arith, fits_iff b)

    -- The split is inside the model and fits, and no fitting split scores above it.
    abbrev pub IsChosen : SplitPlan → Type 0
    IsChosen p =
        (a : ℕ) × IsPlan p a
        × ((b : ℕ) → 0 < b → b < num_layers → Fits b → gt (score b) (score a) ≡ false)

    finish-IsChosen :
        (r : Option (S × ℕ)) (p : SplitPlan)
        → IsBest gt gated 1 num_layers r
        → Split.finish num_layers first second kv ctx r ≡ ok p
        → IsChosen p
    unfolding Split.finish
    finish-IsChosen none p i e = cc
    finish-IsChosen (some (h, a)) p i e =
        let (fit, own) = gated-some a h i.0 in
        (
          a,
          record { at = cc; low = i.1; high = i.2; fit = fit },
          λ b lo hi f. rw (← own) (i.3 b (score b) lo hi (gated-Fits b f)),
        )

    search-IsBest :
        IsGreater gt
        → 0 < num_layers
        → IsBest gt gated 1 num_layers (search_from gt gated (num_layers - 1) 1 none)
    search-IsBest g n =
        let e : num_layers - 1 + 1 ≡ num_layers = omega arith in
        subst (λ k. IsBest gt gated 1 k (search_from gt gated (num_layers - 1) 1 none)) e
          (search_from-IsBest_init gt gated g (num_layers - 1) 1)

    pub search_split-IsChosen :
        IsGreater gt
        → 0 < num_layers
        → (p : SplitPlan) → Split.search_split num_layers first second kv ctx gt score ≡ ok p
        → IsChosen p
    unfolding Split.search_split
    search_split-IsChosen g n p e = finish-IsChosen _ p (search-IsBest g n) e

    abbrev pub refused : Result SplitPlan
    refused = err (Split.refusal num_layers first second kv ctx)

    finish-refused :
        (r : Option (S × ℕ))
        → IsFound gt gated 1 num_layers r
        → (Split.finish num_layers first second kv ctx r ≡ refused)
          ↔ ((b : ℕ) → 0 < b → b < num_layers → ¬ Fits b)
    unfolding Split.finish
    finish-refused none i = (λ e b lo hi f. cc (i b lo hi, gated-Fits b f), λ h. refl)
    finish-refused (some (h, a)) i =
        (λ e. cc, λ none_fits. absurd (none_fits a i.1 i.2 (gated-some a h i.0).0))

    search-IsFound :
        0 < num_layers
        → IsFound gt gated 1 num_layers (search_from gt gated (num_layers - 1) 1 none)
    search-IsFound n =
        let e : num_layers - 1 + 1 ≡ num_layers = omega arith in
        subst (λ k. IsFound gt gated 1 k (search_from gt gated (num_layers - 1) 1 none)) e
          (search_from-IsFound_init gt gated (num_layers - 1) 1)

    -- It is refused exactly if no split fits, whatever the comparison does.
    pub search_split-refused_iff :
        0 < num_layers
        → (Split.search_split num_layers first second kv ctx gt score ≡ refused)
          ↔ ((b : ℕ) → 0 < b → b < num_layers → ¬ Fits b)
    unfolding Split.search_split
    search_split-refused_iff n = finish-refused _ (search-IsFound n)

  module _ (f : Split.Floats) where
    abbrev plan : String → Result SplitPlan
    plan = Split.plan_split num_layers first second kv ctx f

    plan-headroom :
        (p : SplitPlan)
        → plan "headroom" ≡ ok p
        → (0 < num_layers)
          × (Split.search_split num_layers first second kv ctx nat_gt
                (Split.headroom num_layers first second kv ctx)
              ≡ ok p)
    unfolding Split.plan_split
    plan-headroom p e = ground arith

    plan-balanced :
        (p : SplitPlan)
        → plan "balanced" ≡ ok p
        → (0 < num_layers)
          × (Split.search_split num_layers first second kv ctx f.gt
                (Split.balance num_layers first second kv ctx f)
              ≡ ok p)
    unfolding Split.plan_split
    plan-balanced p e = ground arith

    -- An accepted plan for the objective "headroom" splits the layers at a point inside the model
    -- where both members stay under their budgets, and no other such point leaves more bytes free
    -- on its tighter member.
    pub plan_split-headroom :
        (p : SplitPlan)
        → plan "headroom" ≡ ok p
        → (a : ℕ) × IsPlan p a
          × ((b : ℕ)
              → 0 < b
              → b < num_layers
              → Fits b
              → Split.headroom num_layers first second kv ctx b
                ≤ Split.headroom num_layers first second kv ctx a)
    plan_split-headroom p e =
        let (n, found) = plan-headroom p e in
        let (a, good, best) =
          search_split-IsChosen nat_gt (Split.headroom num_layers first second kv ctx)
            nat_gt-IsGreater n p found in
        (a, good, λ b lo hi fit. ltb→ge _ _ (best b lo hi fit))

    -- If the comparison of floats is a strict order, then an accepted plan for the objective
    -- "balanced" splits the layers at a point inside the model where both members stay under their
    -- budgets, and no other such point has by that comparison a better balance of the shares of the
    -- budgets that are used.
    pub plan_split-balanced :
        IsGreater f.gt
        → (p : SplitPlan) → plan "balanced" ≡ ok p
        → IsChosen f.gt (Split.balance num_layers first second kv ctx f) p
    plan_split-balanced g p e =
        let (n, found) = plan-balanced p e in
        search_split-IsChosen f.gt (Split.balance num_layers first second kv ctx f) g n p found

    -- With at least two layers, a positive context and a positive cache size, and for either
    -- objective, "headroom" or "balanced", the planner refuses with the capacities exactly if both
    -- members stay under their budgets at no split point inside the model.
    pub plan_split-refused_iff :
        (objective : String)
        → (objective ≡ "headroom") ⊎ (objective ≡ "balanced")
        → 2 ≤ num_layers
        → 0 < ctx
        → 0 < kv
        → (plan objective ≡ err (Split.refusal num_layers first second kv ctx))
          ↔ ((b : ℕ) → 0 < b → b < num_layers → ¬ Fits b)
    unfolding Split.plan_split
    plan_split-refused_iff objective (inl e) n c k =
        let base =
          search_split-refused_iff nat_gt (Split.headroom num_layers first second kv ctx)
            (omega arith) in
        rw e (λ e. base.0 (ground arith), λ h. ground (arith, base.1 h))
    plan_split-refused_iff objective (inr e) n c k =
        let base =
          search_split-refused_iff f.gt (Split.balance num_layers first second kv ctx f)
            (omega arith) in
        rw e (λ e. base.0 (ground arith), λ h. ground (arith, base.1 h))
