-- ===== src/Budget/Charge.antt =====
-- soroban-env-host/src/budget.rs: `BudgetImpl` and its `charge`, which every metered operation
-- calls. `Budget` is a shared cell that holds a `BudgetImpl`; that the cell is never borrowed twice
-- at once is not modelled, so its methods are those of the content.
pub mod Laws
pub mod Limits
pub mod Free
use rs_stellar_contract_env.Prelude.{ℕ, Bool, true, false, Option, none, some, List, if◌then◌else◌}
use rs_stellar_contract_env.Error.{Result, ok, err, fail, bind}
use rs_stellar_contract_env.Exec.{Exec, pure, lift, gets, modify, zoom, ◌>>=◌, ◌>>◌}
use rs_stellar_contract_env.Budget.CostType.{ContractCostType, get}
use rs_stellar_contract_env.Budget.Model.{ContractCostParamEntry}
use rs_stellar_contract_env.Budget.Dimension
use rs_stellar_contract_env.Budget.Dimension.{BudgetDimension, check_budget_limit, try_from_config}
use rs_stellar_contract_env.Budget.Tracker.{
  BudgetTracker, CostTracker, default_tracker, record_inputs, add_cpu, add_mem,
}

-- The fuel costs that are set in the WebAssembly engine.
pub record FuelConfig : Type 0 where
  pub base : ℕ
  pub entity : ℕ
  pub load : ℕ
  pub store : ℕ
  pub call : ℕ

-- `FuelConfig::default()`
abbrev pub default_fuel_config : FuelConfig
default_fuel_config = record { base = 1; entity = 3; load = 2; store = 1; call = 67 }

-- `DEFAULT_HOST_DEPTH_LIMIT`
abbrev pub default_host_depth_limit : ℕ
default_host_depth_limit = 100

pub record BudgetImpl : Type 0 where
  pub cpu_insns : BudgetDimension
  pub mem_bytes : BudgetDimension
  pub tracker : BudgetTracker
  pub is_in_shadow_mode : Bool
  pub fuel_config : FuelConfig
  pub depth_limit : ℕ

unfoldable pub try_from_configs :
    ℕ → ℕ → List ContractCostParamEntry → List ContractCostParamEntry → Result BudgetImpl
unfolding Dimension.reset default_tracker
try_from_configs cpu_limit mem_limit cpu_cost_params mem_cost_params =
    bind (try_from_config cpu_cost_params) λ cpu. bind (try_from_config mem_cost_params) λ mem.
      ok (record {
        cpu_insns = Dimension.reset cpu_limit cpu;
        mem_bytes = Dimension.reset mem_limit mem;
        tracker = default_tracker;
        is_in_shadow_mode = false;
        fuel_config = default_fuel_config;
        depth_limit = default_host_depth_limit;
      })

unfoldable pub on_cpu {ℓ} : {A : Type ℓ} → Exec BudgetDimension A → Exec BudgetImpl A
unfolding zoom
on_cpu = zoom (λ b. b.cpu_insns) (λ d b. record b { cpu_insns = d })

unfoldable pub on_mem {ℓ} : {A : Type ℓ} → Exec BudgetDimension A → Exec BudgetImpl A
unfolding zoom
on_mem = zoom (λ b. b.mem_bytes) (λ d b. record b { mem_bytes = d })

unfoldable pub on_tracker {ℓ} : {A : Type ℓ} → Exec BudgetTracker A → Exec BudgetImpl A
unfolding zoom
on_tracker = zoom (λ b. b.tracker) (λ t b. record b { tracker = t })

-- A change of the tracker, which shadow mode leaves alone.
unfoldable pub track : (BudgetTracker → BudgetTracker) → BudgetImpl → BudgetImpl
track f b = if b.is_in_shadow_mode then b else record b { tracker = f b.tracker }

unfoldable pub charge_inputs : ContractCostType → ℕ → Option ℕ → Exec BudgetImpl (Unit {0})
unfolding on_tracker record_inputs
charge_inputs ty iterations input b =
    if b.is_in_shadow_mode then (ok tt, b) else on_tracker (record_inputs ty iterations input) b

unfoldable pub charge_cpu : ContractCostType → ℕ → Option ℕ → Exec BudgetImpl (Unit {0})
unfolding ◌>>=◌ on_cpu Dimension.charge track add_cpu check_budget_limit
charge_cpu ty iterations input = do
  is_shadow ← gets (λ b. b.is_in_shadow_mode)
  cpu_charged ← on_cpu (Dimension.charge ty iterations input is_shadow)
  modify (track (add_cpu ty cpu_charged))
  b ← gets (λ b. b)
  lift (check_budget_limit is_shadow b.cpu_insns)

unfoldable pub charge_mem : ContractCostType → ℕ → Option ℕ → Exec BudgetImpl (Unit {0})
unfolding ◌>>=◌ on_mem Dimension.charge track add_mem check_budget_limit
charge_mem ty iterations input = do
  is_shadow ← gets (λ b. b.is_in_shadow_mode)
  mem_charged ← on_mem (Dimension.charge ty iterations input is_shadow)
  modify (track (add_mem ty mem_charged))
  b ← gets (λ b. b)
  lift (check_budget_limit is_shadow b.mem_bytes)

-- `BudgetImpl::charge`, and `Budget::bulk_charge`
unfoldable pub bulk_charge : ContractCostType → ℕ → Option ℕ → Exec BudgetImpl (Unit {0})
unfolding ◌>>=◌
bulk_charge ty iterations input = do
  charge_inputs ty iterations input
  charge_cpu ty iterations input
  charge_mem ty iterations input

-- `Budget::charge`
unfoldable pub charge : ContractCostType → Option ℕ → Exec BudgetImpl (Unit {0})
unfolding bulk_charge
charge ty input = bulk_charge ty 1 input
