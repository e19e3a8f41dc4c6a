-- ===== src/Plan/Split.antt =====
-- commonnet/plan.py: `plan_split`, the split point of a model whose layers are alike.
pub mod Optimal
use common_network.Prelude.{
  ℕ, zero, ◌+◌, ◌-◌, ◌*◌, ◌≤◌, ◌<◌, ◌≡◌, refl, String, List, Bool, true, false, ◌&&◌, arith, min,
  Option, none, some, if◌then◌else◌, ◌==◌, ltb, leb, ◌∷◌, [], Option-cases, inl, inr, Bool-cases,
  ◌⊎◌, number_eq, text_eq, not, ◌||◌,
}
use common_network.Plan.Search.{
  IsGreater, nat_gt, nat_gt-IsGreater, search_from, IsBest, search_from-IsBest_init,
}
use common_network.Plan.Member.{
  PlanError, unknown_objective, too_few_layers, bad_context, bad_kv, no_split, Result, ok, err,
  Member, Assignment, SplitPlan, member_bytes, max_layers,
}

-- The float operations of the "balanced" objective.
pub record Floats : Type 1 where
  pub Float : Type 0
  pub div : ℕ → ℕ → Float
  pub sub : Float → Float → Float
  pub abs : Float → Float
  pub neg : Float → Float
  pub gt : Float → Float → Bool

module _ (num_layers : ℕ) (first second : Member) (kv ctx : ℕ) where
  abbrev pub used_first : ℕ → ℕ
  used_first a = member_bytes first a kv ctx

  abbrev pub used_second : ℕ → ℕ
  used_second a = member_bytes second (num_layers - a) kv ctx

  -- Both members stay under their budgets.
  unfoldable pub fits : ℕ → Bool
  fits a = leb (used_first a) first.budget_bytes && leb (used_second a) second.budget_bytes

  -- Bytes left on the tighter member.
  unfoldable pub headroom : ℕ → ℕ
  headroom a = min (first.budget_bytes - used_first a) (second.budget_bytes - used_second a)

  -- The score of a split point, if it is feasible.
  unfoldable pub gated {ℓ} : {S : Type ℓ} → (ℕ → S) → ℕ → Option S
  unfolding fits
  gated score a = if fits a then some (score a) else none

  -- `-abs(used1 / first.budget_bytes - used2 / second.budget_bytes)`
  unfoldable pub balance : (f : Floats) → ℕ → f.Float
  balance f a = f.neg (
      f.abs (
        f.sub (f.div (used_first a) first.budget_bytes)
          (f.div (used_second a) second.budget_bytes)))

  -- The plan that splits before layer `a`.
  unfoldable pub split_at : ℕ → SplitPlan
  split_at a = record {
    num_layers = num_layers;
    context_tokens = ctx;
    assignments =
        record {
          name = first.name;
          start = 0;
          end = a;
          used_bytes = used_first a;
          budget_bytes = first.budget_bytes;
        }
        ∷ record {
          name = second.name;
          start = a;
          end = num_layers;
          used_bytes = used_second a;
          budget_bytes = second.budget_bytes;
        }
        ∷ [];
  }

  unfoldable pub refusal : PlanError
  refusal =
      let cap1 = max_layers first kv ctx in
      let cap2 = max_layers second kv ctx in no_split cap1 cap2 (num_layers - cap1 - cap2)

  unfoldable pub finish {ℓ} : {S : Type ℓ} → Option (S × ℕ) → Result SplitPlan
  unfolding split_at refusal
  finish none = err refusal
  finish (some (h, a)) = ok (split_at a)

  -- The loop over the split points, and what is made of its best one.
  unfoldable pub search_split {ℓ} : {S : Type ℓ} → (S → S → Bool) → (ℕ → S) → Result SplitPlan
  unfolding finish
  search_split gt score = finish (search_from gt (gated score) (num_layers - 1) 1 none)

  unfoldable pub plan_split : Floats → String → Result SplitPlan
  plan_split f objective =
      if not (objective == "headroom" || objective == "balanced")
      then err unknown_objective
      else if ltb num_layers 2
      then err too_few_layers
      else if ctx == 0
      then err bad_context
      else if kv == 0
      then err bad_kv
      else if objective == "balanced"
      then search_split f.gt (balance f)
      else search_split nat_gt headroom
