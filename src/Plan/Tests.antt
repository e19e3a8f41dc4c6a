-- ===== src/Plan/Tests.antt =====
-- Runs of the planners on small members, and the theorems at those inputs.
use common_network.Prelude.{
  ℕ, ◌+◌, ◌-◌, ◌*◌, ◌/◌, ◌≤◌, ◌<◌, ◌≡◌, ◌↔◌, ◌⊎◌, inr, refl, String, List, [], ◌∷◌, arith, text_eq,
  number_eq,
}
use common_network.Prelude.Dict.{Dict, lookup}
use common_network.Plan.Search.{nat_gt, search_from, consider, better}
use common_network.Plan.Member.{
  Member, refused_device, ok, err, no_split, member_bytes, max_layers, check_member,
}
use common_network.Plan.Split
use common_network.Plan.Split.Optimal
use common_network.Plan.Capacity
use common_network.Plan.Hybrid
use common_network.Plan.Hybrid.Optimal as Best

-- The share of a budget in thousandths stands for the floats.
abbrev per_mille : Split.Floats
per_mille = record {
  Float = ℕ;
  div = λ a b. a * 1000 / b;
  sub = λ a b. (a - b) + (b - a);
  abs = λ a. a;
  neg = λ a. 1000 - a;
  gt = nat_gt;
}

abbrev mac : Member
mac = record {
  name = "mac";
  device = "metal";
  budget_bytes = 100;
  layer_bytes = 8;
  fixed_bytes = 20;
}

abbrev pc : Member
pc = record { name = "pc"; device = "cuda"; budget_bytes = 60; layer_bytes = 8; fixed_bytes = 0 }

abbrev small : Member
small = record pc { budget_bytes = 5 }

program : Unit {0}
unfolding Split.plan_split Split.search_split Split.headroom Split.balance Split.gated Split.fits
    Split.finish Split.split_at Split.refusal search_from consider better member_bytes max_layers
program = tt

device_refused : check_member (record mac { device = "cpu" }) ≡ err refused_device
unfolding check_member
device_refused = refl

plan_8 : Split.plan_split 10 mac pc 1 2 per_mille "headroom" ≡ ok (Split.split_at 10 mac pc 1 2 6)
unfolding program
plan_8 = refl

plan_8_balanced :
    Split.plan_split 10 mac pc 1 2 per_mille "balanced" ≡ ok (Split.split_at 10 mac pc 1 2 5)
unfolding program
plan_8_balanced = refl

-- The second member holds no layer: the refusal says that no layer is missing.
refused_short_by_zero : Split.plan_split 6 mac small 1 2 per_mille "headroom" ≡ err (no_split 8 0 0)
unfolding program
refused_short_by_zero = refl

plan_split-headroom_example :
    (a : ℕ) × Optimal.IsPlan 10 mac pc 1 2 (Split.split_at 10 mac pc 1 2 6) a
    × ((b : ℕ)
        → 0 < b
        → b < 10
        → Optimal.Fits 10 mac pc 1 2 b
        → Split.headroom 10 mac pc 1 2 b ≤ Split.headroom 10 mac pc 1 2 a)
plan_split-headroom_example =
    Optimal.plan_split-headroom 10 mac pc 1 2 per_mille (Split.split_at 10 mac pc 1 2 6) plan_8

plan_split-refused_iff_example :
    (Split.plan_split 6 mac small 1 2 per_mille "balanced" ≡ err (Split.refusal 6 mac small 1 2))
    ↔ ((b : ℕ) → 0 < b → b < 6 → ¬ Optimal.Fits 6 mac small 1 2 b)
plan_split-refused_iff_example =
    Optimal.plan_split-refused_iff 6 mac small 1 2 per_mille "balanced" (inr refl) (omega arith)
      (omega arith) (omega arith)

plan_split-capacity_iff_example :
    (Split.plan_split 6 mac small 1 2 per_mille "balanced" ≡ err (Split.refusal 6 mac small 1 2))
    ↔ ((max_layers mac 1 2 ≡ 0)
        ⊎ (max_layers small 1 2 ≡ 0)
        ⊎ (max_layers mac 1 2 + max_layers small 1 2 < 6))
plan_split-capacity_iff_example =
    Capacity.plan_split-capacity_iff 6 mac small 1 2 per_mille "balanced" (inr refl) (omega arith)
      (omega arith) (omega arith) (omega arith) (omega arith)

abbrev kinds : List String
kinds = Hybrid.qwen36_layer_types 4 2

abbrev costs : Dict String ℕ
costs = ("linear_attention", 10) ∷ ("full_attention", 6) ∷ []

abbrev each : List ℕ
each = 15 ∷ 8 ∷ 15 ∷ 8 ∷ []

hybrid_program : Unit {0}
unfolding program Hybrid.plan_hybrid_split Hybrid.per_layer Hybrid.layer_cost Hybrid.search_split
    Hybrid.headroom Hybrid.cap Hybrid.sum Hybrid.used_first Hybrid.used_second Hybrid.split_at
    Hybrid.refusal Hybrid.qwen36_layer_types lookup
hybrid_program = tt

each_cost : Hybrid.per_layer 2 1 5 costs kinds ≡ ok each
unfolding hybrid_program
each_cost = refl

hybrid_plan :
    Hybrid.plan_hybrid_split kinds costs costs mac pc 2 1 5
    ≡ ok (Hybrid.split_at mac pc each each 4 2 3)
unfolding hybrid_program
hybrid_plan = refl

plan_hybrid_split-IsChosen_example :
    Best.IsChosen mac pc each each 4 2 (Hybrid.split_at mac pc each each 4 2 3)
unfolding hybrid_program
plan_hybrid_split-IsChosen_example =
    Best.plan_hybrid_split-IsChosen kinds costs costs mac pc 2 1 5 each each each_cost each_cost
      (omega arith) (omega arith) (Hybrid.split_at mac pc each each 4 2 3) hybrid_plan

plan_hybrid_split-refused_iff_example :
    (Hybrid.plan_hybrid_split kinds costs costs mac small 2 1 5
      ≡ err (Hybrid.refusal mac small each each 4))
    ↔ ((b : ℕ) → 0 < b → b < 4 → ¬ Best.Fits mac small each each b)
unfolding hybrid_program
plan_hybrid_split-refused_iff_example =
    Best.plan_hybrid_split-refused_iff kinds costs costs mac small 2 1 5 each each each_cost
      each_cost (omega arith) (omega arith)
