-- ===== src/Plan/Capacity.antt =====
-- commonnet/plan.py: `max_layers`, the capacities that a refused plan reports.
use common_network.Prelude.{ℕ, ◌+◌, ◌-◌, ◌*◌, ◌≤◌, ◌<◌, ◌≡◌, ◌↔◌, ◌⊎◌, String, min, arith}
use native.Mathlib.Nat.{le-div_iff_mul-le}
use common_network.Plan.Member.{Member, member_bytes, max_layers, err}
use common_network.Plan.Split
use common_network.Plan.Split.Optimal.{Fits, plan_split-refused_iff}

-- A positive number of layers fits the budget exactly if it is at most `max_layers`.
pub max_layers_iff :
    (m : Member) (kv ctx layers : ℕ)
    → 0 < m.layer_bytes
    → 0 < layers
    → (member_bytes m layers kv ctx ≤ m.budget_bytes) ↔ (layers ≤ max_layers m kv ctx)
unfolding member_bytes max_layers
max_layers_iff m kv ctx layers pos some_layer =
    let per = m.layer_bytes + kv * ctx in
    let div =
      le-div_iff_mul-le {k = per} {x = layers} {y = m.budget_bytes - m.fixed_bytes} (omega arith) in
    let used : 0 < layers * per = grind arith in
    (λ h. div.1 (omega arith), λ h. let d = div.0 h in omega arith)

module _ (num_layers : ℕ) (first second : Member) (kv ctx : ℕ) where
  -- A model of two layers or more cannot be split exactly if a member holds no layer at all, or
  -- the two together hold too few.
  pub no_fit_iff :
      0 < first.layer_bytes
      → 0 < second.layer_bytes
      → 2 ≤ num_layers
      → ((b : ℕ) → 0 < b → b < num_layers → ¬ Fits num_layers first second kv ctx b) ↔ (
          (max_layers first kv ctx ≡ 0)
          ⊎ (max_layers second kv ctx ≡ 0)
          ⊎ (max_layers first kv ctx + max_layers second kv ctx < num_layers))
  no_fit_iff p q n = (
    λ h.
        let cap1 = max_layers first kv ctx in
        let b = min cap1 (num_layers - 1) in
        ground (
          arith,
          h b,
          max_layers_iff first kv ctx b p,
          max_layers_iff second kv ctx (num_layers - b) q,
        ),
    λ few b lo hi fit.
        ground
          (arith, max_layers_iff first kv ctx b p, max_layers_iff second kv ctx (num_layers - b) q),
  )

  -- With at least two layers, positive layer sizes, a positive context and a positive cache size,
  -- and for either objective, "headroom" or "balanced", `plan_split` refuses with the capacities
  -- exactly if one of the members holds no layer, or the two together hold fewer than the model
  -- has.
  pub plan_split-capacity_iff :
      (f : Split.Floats) (objective : String)
      → (objective ≡ "headroom") ⊎ (objective ≡ "balanced")
      → 0 < first.layer_bytes
      → 0 < second.layer_bytes
      → 2 ≤ num_layers
      → 0 < ctx
      → 0 < kv
      → (Split.plan_split num_layers first second kv ctx f objective
          ≡ err (Split.refusal num_layers first second kv ctx))
        ↔ ((max_layers first kv ctx ≡ 0)
            ⊎ (max_layers second kv ctx ≡ 0)
            ⊎ (max_layers first kv ctx + max_layers second kv ctx < num_layers))
  plan_split-capacity_iff f objective o p q n c k =
      let none_fits = plan_split-refused_iff num_layers first second kv ctx f objective o n c k in
      (λ e. (no_fit_iff p q n).0 (none_fits.0 e), λ few. none_fits.1 ((no_fit_iff p q n).1 few))
