-- ===== src/Budget/Dimension.antt =====
-- soroban-env-host/src/budget/dimension.rs: the models, limits and counts of one resource, the cpu
-- instructions or the bytes of memory.
pub mod Laws
use rs_stellar_contract_env.Prelude.{
  ℕ, Bool, true, false, Option, none, some, List, [], ◌∷◌, if◌then◌else◌, ltb, u64_max, length,
  get_elem?, ◌==◌, saturating_add, saturating_mul, saturating_sub,
}
use rs_stellar_contract_env.Error.{
  Result, ok, err, fail, bind, budget, internal_error, exceeded_limit,
}
use rs_stellar_contract_env.Exec.{Exec}
use rs_stellar_contract_env.Budget.CostType.{ContractCostType, Table, index, get, variants_len}
use rs_stellar_contract_env.Budget.Model.{
  MeteredCostComponent, ContractCostParamEntry, zero_model, try_from, evaluate,
}

pub record BudgetDimension : Type 0 where
  pub cost_models : Table MeteredCostComponent
  pub limit : ℕ
  pub total_count : ℕ
  pub shadow_limit : ℕ
  pub shadow_total_count : ℕ

-- `BudgetDimension::default()`
abbrev pub default_dimension : BudgetDimension
default_dimension = record {
  cost_models = λ ty. zero_model;
  limit = 0;
  total_count = 0;
  shadow_limit = 0;
  shadow_total_count = 0;
}

-- The `collect` of the models, which stops at the first entry that is refused.
unfoldable pub collect_models : List ContractCostParamEntry → Result (List MeteredCostComponent)
collect_models [] = ok []
collect_models (p ∷ ps) = bind (try_from p) (λ m. bind (collect_models ps) (λ ms. ok (m ∷ ms)))

-- `cost_models.try_into()`, from a vector to the array: it fails unless the lengths agree.
unfoldable pub to_table : List MeteredCostComponent → Result (Table MeteredCostComponent)
to_table models =
    if length models == variants_len
    then ok (λ ty. elim (get_elem? models (index ty)) [ some m ↦ m | none ↦ zero_model ])
    else fail budget internal_error

unfoldable pub try_from_config : List ContractCostParamEntry → Result BudgetDimension
try_from_config cost_params = bind (collect_models cost_params) λ models.
    bind (to_table models) λ table. ok (record {
      cost_models = table;
      limit = 0;
      total_count = 0;
      shadow_limit = 0;
      shadow_total_count = 0;
    })

unfoldable pub get_cost_model : BudgetDimension → ContractCostType → Option MeteredCostComponent
get_cost_model d ty = get d.cost_models ty

unfoldable pub get_total_count : BudgetDimension → ℕ
get_total_count d = d.total_count

unfoldable pub get_remaining : BudgetDimension → ℕ
get_remaining d = saturating_sub d.limit d.total_count

unfoldable pub reset : ℕ → BudgetDimension → BudgetDimension
reset limit d = record d {
  limit = limit;
  total_count = 0;
  shadow_limit = limit;
  shadow_total_count = 0;
}

unfoldable pub check_budget_limit : Bool → BudgetDimension → Result (Unit {0})
check_budget_limit is_shadow d =
    let over_limit : Bool =
      if is_shadow then ltb d.shadow_limit d.shadow_total_count else ltb d.limit d.total_count in
    if over_limit then fail budget exceeded_limit else ok tt

-- The count that `charge` adds to.
unfoldable pub add_count : Bool → ℕ → BudgetDimension → BudgetDimension
add_count is_shadow amount d =
    if is_shadow
    then record d { shadow_total_count = saturating_add u64_max d.shadow_total_count amount }
    else record d { total_count = saturating_add u64_max d.total_count amount }

-- What is charged after the model has been evaluated.
unfoldable pub charge_amount : Result ℕ → ℕ → Bool → Exec BudgetDimension ℕ
unfolding add_count
charge_amount (err e) iterations is_shadow d = (err e, d)
charge_amount (ok cost) iterations is_shadow d =
    let amount = saturating_mul u64_max cost iterations in (ok amount, add_count is_shadow amount d)

-- `BudgetDimension::charge`, which returns the amount; the flag of the cpu is for tracing only.
unfoldable pub charge : ContractCostType → ℕ → Option ℕ → Bool → Exec BudgetDimension ℕ
unfolding get_cost_model charge_amount
charge ty iterations input is_shadow d = elim (get_cost_model d ty) [
  | none ↦ (fail budget internal_error, d)
  | some cm ↦ charge_amount (evaluate cm input) iterations is_shadow d
]

-- `reset_models`
unfoldable pub reset_models : BudgetDimension → BudgetDimension
reset_models d = record d { cost_models = λ ty. zero_model }
