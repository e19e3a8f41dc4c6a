-- ===== src/Plan/Hybrid/Optimal.antt =====
-- commonnet/plan.py: what `plan_hybrid_split` chooses, and when it refuses.
use common_network.Prelude.{
  ℕ, ◌+◌, ◌-◌, ◌≤◌, ◌<◌, ◌≡◌, ◌↔◌, refl, String, List, true, arith, Option, none, some, ltb→ge,
  length, sym, ◌∙◌,
}
use mathlib.Core.Path.{subst}
use common_network.Prelude.Dict.{Dict}
use common_network.Plan.Search.{
  nat_gt, nat_gt-IsGreater, search_from, IsBest, search_from-IsBest_init,
}
use common_network.Plan.Member.{Result, ok, err, Member, SplitPlan}
use common_network.Plan.Hybrid.{
  per_layer, used_first, used_second, fits, headroom, score, split_at, refusal, finish,
  search_split, plan_hybrid_split,
}

module _ (first second : Member) (c1 c2 : List ℕ) where
  abbrev pub Fits : ℕ → Type 0
  Fits b =
      (used_first first second c1 c2 b ≤ first.budget_bytes)
      × (used_second first second c1 c2 b ≤ second.budget_bytes)

  fits_iff : (b : ℕ) → (fits first second c1 c2 b ≡ true) ↔ Fits b
  unfolding fits
  fits_iff b = ground arith

  score-Fits : (b : ℕ) → Fits b → score first second c1 c2 b ≡ some (headroom first second c1 c2 b)
  unfolding score
  score-Fits b f = ground (arith, fits_iff b)

  score-some :
      (b s : ℕ) → score first second c1 c2 b ≡ some s → Fits b × (s ≡ headroom first second c1 c2 b)
  unfolding score
  score-some b s e = ground (arith, fits_iff b)

  module _ (n ctx : ℕ) where
    search-IsBest :
        0 < n
        → IsBest nat_gt
            (score first second c1 c2)
            1
            n
            (search_from nat_gt (score first second c1 c2) (n - 1) 1 none)
    search-IsBest pos =
        let best = search_from nat_gt (score first second c1 c2) (n - 1) 1 none in
        let e : n - 1 + 1 ≡ n = omega arith in
        subst (λ k. IsBest nat_gt (score first second c1 c2) 1 k best) e
          (search_from-IsBest_init nat_gt (score first second c1 c2) nat_gt-IsGreater (n - 1) 1)

    -- A split inside the model that fits, with no fitting split that leaves more bytes free.
    abbrev pub IsChosen : SplitPlan → Type 0
    IsChosen p =
        (a : ℕ) × (p ≡ split_at first second c1 c2 n ctx a)
        × (0 < a)
        × (a < n)
        × Fits a
        × ((b : ℕ)
            → 0 < b
            → b < n
            → Fits b
            → headroom first second c1 c2 b ≤ headroom first second c1 c2 a)

    finish-IsChosen :
        (r : Option (ℕ × ℕ)) (p : SplitPlan)
        → IsBest nat_gt (score first second c1 c2) 1 n r
        → finish first second c1 c2 n ctx r ≡ ok p
        → IsChosen p
    unfolding finish
    finish-IsChosen none p i e = cc
    finish-IsChosen (some (h, a)) p i e =
        let (fit, own) = score-some a h i.0 in
        (
          a,
          cc,
          i.1,
          i.2,
          fit,
          λ b lo hi f. rw (← own) (ltb→ge _ _ (i.3 b _ lo hi (score-Fits b f))),
        )

    finish-refused :
        (r : Option (ℕ × ℕ))
        → IsBest nat_gt (score first second c1 c2) 1 n r
        → (finish first second c1 c2 n ctx r ≡ err (refusal first second c1 c2 n))
          ↔ ((b : ℕ) → 0 < b → b < n → ¬ Fits b)
    unfolding finish
    finish-refused none i = (λ e b lo hi f. cc (i b lo hi, score-Fits b f), λ h. refl)
    finish-refused (some (h, a)) i =
        (λ e. cc, λ none_fits. absurd (none_fits a i.1 i.2 (score-some a h i.0).0))

module _ (types : List String) (cost1 cost2 : Dict String ℕ) (first second : Member)
    (ctx kv linear : ℕ) (c1 c2 : List ℕ) where
  abbrev plan : Result SplitPlan
  plan = plan_hybrid_split types cost1 cost2 first second ctx kv linear

  module _ (known1 : per_layer ctx kv linear cost1 types ≡ ok c1)
      (known2 : per_layer ctx kv linear cost2 types ≡ ok c2) (context : 0 < ctx)
      (some_layer : 0 < length types) where
    plan_search : plan ≡ search_split first second c1 c2 (length types) ctx
    unfolding plan_hybrid_split
    plan_search = ground arith

    -- If both tables of costs know every type of layer, then an accepted plan splits the layers where
    -- both members stay under their budgets, and no other such split leaves more bytes free on its
    -- tighter member.
    pub plan_hybrid_split-IsChosen :
        (p : SplitPlan) → plan ≡ ok p → IsChosen first second c1 c2 (length types) ctx p
    unfolding search_split
    plan_hybrid_split-IsChosen p e =
        finish-IsChosen first second c1 c2 (length types) ctx _ p
          (search-IsBest first second c1 c2 (length types) ctx some_layer) (sym plan_search ∙ e)

    -- If both tables of costs know every type of layer, there is a layer and the context is positive,
    -- then the plan is refused with the members' capacities exactly if no split fits.
    pub plan_hybrid_split-refused_iff :
        (plan ≡ err (refusal first second c1 c2 (length types)))
        ↔ ((b : ℕ) → 0 < b → b < length types → ¬ Fits first second c1 c2 b)
    unfolding search_split
    plan_hybrid_split-refused_iff = rw plan_search (
        finish-refused first second c1 c2 (length types) ctx _
          (search-IsBest first second c1 c2 (length types) ctx some_layer))
