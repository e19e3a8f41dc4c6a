-- ===== src/Plan/Hybrid.antt =====
-- commonnet/plan.py: `plan_hybrid_split`, for layers that differ in size and in memory per session.
-- The dictionaries of costs are association lists; a missing type of layer is `missing_cost`.
pub mod Optimal
use common_network.Prelude.{
  ℕ, zero, suc, ◌+◌, ◌-◌, ◌*◌, ◌%◌, ◌≤◌, ◌<◌, ◌≡◌, String, List, Bool, true, false, ◌&&◌, arith,
  min, Option, none, some, if◌then◌else◌, ◌==◌, ltb, leb, ◌∷◌, [], number_eq, text_eq, take, drop,
  length, reverse,
}
use common_network.Prelude.Dict.{Dict, lookup}
use common_network.Plan.Search.{nat_gt, search_from}
use common_network.Plan.Member.{
  PlanError, bad_context, missing_cost, no_split, Result, ok, err, ◌>>=◌, Member, Assignment,
  SplitPlan,
}

unfoldable pub sum : List ℕ → ℕ
sum [] = 0
sum (x ∷ xs) = x + sum xs

-- Bytes of one layer: its weights, and its keys and values or its fixed state.
unfoldable pub layer_cost : ℕ → ℕ → ℕ → Dict String ℕ → String → Result ℕ
layer_cost ctx kv linear costs t = elim (lookup t costs) [
  | none ↦ err (missing_cost t)
  | some w ↦ ok (w + (if t == "full_attention" then kv * ctx else linear))
]

-- The inner function `per_layer`.
unfoldable pub per_layer : ℕ → ℕ → ℕ → Dict String ℕ → List String → Result (List ℕ)
per_layer ctx kv linear costs [] = ok []
per_layer ctx kv linear costs (t ∷ ts) = do
  c ← layer_cost ctx kv linear costs t
  cs ← per_layer ctx kv linear costs ts
  ok (c ∷ cs)

-- The inner function `cap`: how many layers of `costs`, in order, go on top of `used`.
unfoldable pub cap : ℕ → ℕ → List ℕ → ℕ
cap budget used [] = 0
cap budget used (x ∷ xs) =
    let rest = cap budget (used + x) xs in if ltb budget (used + x) then 0 else suc rest

module _ (first second : Member) (c1 c2 : List ℕ) where
  unfoldable pub used_first : ℕ → ℕ
  used_first a = first.fixed_bytes + sum (take a c1)

  unfoldable pub used_second : ℕ → ℕ
  used_second a = second.fixed_bytes + sum (drop a c2)

  unfoldable pub fits : ℕ → Bool
  fits a = leb (used_first a) first.budget_bytes && leb (used_second a) second.budget_bytes

  unfoldable pub headroom : ℕ → ℕ
  headroom a = min (first.budget_bytes - used_first a) (second.budget_bytes - used_second a)

  unfoldable pub score : ℕ → Option ℕ
  unfolding fits
  score a = if fits a then some (headroom a) else none

  unfoldable pub split_at : ℕ → ℕ → ℕ → SplitPlan
  split_at n ctx a = record {
    num_layers = n;
    context_tokens = ctx;
    assignments =
        record {
          name = first.name;
          start = 0;
          end = a;
          used_bytes = used_first a;
          budget_bytes = first.budget_bytes;
        }
        ∷ record {
          name = second.name;
          start = a;
          end = n;
          used_bytes = used_second a;
          budget_bytes = second.budget_bytes;
        }
        ∷ [];
  }

  unfoldable pub refusal : ℕ → PlanError
  refusal n =
      let k1 = cap first.budget_bytes first.fixed_bytes c1 in
      let k2 = cap second.budget_bytes second.fixed_bytes (reverse c2) in
      no_split k1 k2 (n - k1 - k2)

  unfoldable pub finish : ℕ → ℕ → Option (ℕ × ℕ) → Result SplitPlan
  finish n ctx none = err (refusal n)
  finish n ctx (some (h, a)) = ok (split_at n ctx a)

  -- The loop over the split points.
  unfoldable pub search_split : ℕ → ℕ → Result SplitPlan
  unfolding finish score
  search_split n ctx = finish n ctx (search_from nat_gt score (n - 1) 1 none)

unfoldable pub plan_hybrid_split :
    List String → Dict String ℕ → Dict String ℕ → Member → Member → ℕ → ℕ → ℕ → Result SplitPlan
plan_hybrid_split layer_types first_cost second_cost first second ctx kv linear =
    if ctx == 0 then err bad_context else do
      c1 ← per_layer ctx kv linear first_cost layer_types
      c2 ← per_layer ctx kv linear second_cost layer_types
      search_split first second c1 c2 (length layer_types) ctx

-- `qwen36_layer_types`: every `interval`-th layer is full attention.
unfoldable pub layer_types_from : ℕ → ℕ → ℕ → List String
layer_types_from zero i interval = []
layer_types_from (suc k) i interval =
    (if (i + 1) % interval == 0 then "full_attention" else "linear_attention")
    ∷ layer_types_from k (suc i) interval

unfoldable pub qwen36_layer_types : ℕ → ℕ → List String
unfolding layer_types_from
qwen36_layer_types num_layers interval = layer_types_from num_layers 0 interval
