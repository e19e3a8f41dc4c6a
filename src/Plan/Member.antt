-- ===== src/Plan/Member.antt =====
-- commonnet/plan.py: `Member`, `Assignment`, `SplitPlan` and what a member needs for its layers.
-- Byte counts, budgets and lengths are natural numbers.
use common_network.Prelude.{
  ℕ, ◌+◌, ◌-◌, ◌*◌, ◌/◌, String, List, ◌||◌, if◌then◌else◌, ◌==◌, not, any, ◌∷◌, [], number_eq,
  text_eq,
}

pub data PlanError : Type 0 where
  refused_device : PlanError
  bad_member : PlanError
  unknown_objective : PlanError
  too_few_layers : PlanError
  bad_context : PlanError
  bad_kv : PlanError
  -- `costs[t]` on a layer type that the table of costs lacks
  missing_cost : String → PlanError
  -- the layers that each member could hold, and how many are missing
  no_split : ℕ → ℕ → ℕ → PlanError

pub data Result {ℓ} (A : Type ℓ) : Type ℓ where
  ok : A → Result A
  err : PlanError → Result A

infixl 5 ◌>>=◌
abbrev pub ◌>>=◌ {ℓ κ} : {A : Type ℓ} {B : Type κ} → Result A → (A → Result B) → Result B
ok a >>= f = f a
err e >>= f = err e

pub record Member : Type 0 where
  pub name : String
  pub device : String
  pub budget_bytes : ℕ
  pub layer_bytes : ℕ
  pub fixed_bytes : ℕ

abbrev pub supported_devices : List String
supported_devices = "metal" ∷ "cuda" ∷ []

-- `Member.__post_init__`
unfoldable pub check_member : Member → Result Member
check_member m =
    if not (any (λ d. d == m.device) supported_devices)
    then err refused_device
    else if m.budget_bytes == 0 || m.layer_bytes == 0
    then err bad_member
    else ok m

pub record Assignment : Type 0 where
  pub name : String
  pub start : ℕ
  pub end : ℕ
  pub used_bytes : ℕ
  pub budget_bytes : ℕ

pub record SplitPlan : Type 0 where
  pub num_layers : ℕ
  pub context_tokens : ℕ
  pub assignments : List Assignment

unfoldable pub kv_bytes_per_token_per_layer : ℕ → ℕ → ℕ → ℕ
kv_bytes_per_token_per_layer kv_heads head_dim dtype_bytes = 2 * kv_heads * head_dim * dtype_bytes

-- Bytes that a member needs to serve `layers` layers at this context length.
unfoldable pub member_bytes : Member → ℕ → ℕ → ℕ → ℕ
member_bytes m layers kv ctx = m.fixed_bytes + layers * (m.layer_bytes + kv * ctx)

-- How many layers the member could serve alone.
unfoldable pub max_layers : Member → ℕ → ℕ → ℕ
max_layers m kv ctx = (m.budget_bytes - m.fixed_bytes) / (m.layer_bytes + kv * ctx)
