-- ===== src/Budget/Charge/Laws.antt =====
-- What `BudgetImpl::charge` does to the counts of both resources, in and out of shadow mode.
use rs_stellar_contract_env.Prelude.{
  ℕ, ◌≡◌, refl, true, Option, none, some, arith, u64_max, saturating_mul,
}
use rs_stellar_contract_env.Exec.{◌>>=◌}
use rs_stellar_contract_env.Budget.CostType.{ContractCostType}
use rs_stellar_contract_env.Budget.Model.{evaluate}
use rs_stellar_contract_env.Budget.Dimension.{BudgetDimension, add_count, check_budget_limit}
use rs_stellar_contract_env.Budget.Dimension.Laws.{unit_cost}
use rs_stellar_contract_env.Budget.Tracker.{add_cpu, add_mem}
use rs_stellar_contract_env.Budget.Charge.{
  BudgetImpl, charge_inputs, charge_cpu, charge_mem, bulk_charge, track,
}

-- What a charge adds to the count of a resource.
abbrev pub amount : BudgetDimension → ContractCostType → Option ℕ → ℕ → ℕ
amount d ty input n = saturating_mul u64_max (unit_cost d ty input) n

-- The state after the count of the cpu and its tracker are written.
abbrev pub after_cpu : ContractCostType → ℕ → Option ℕ → BudgetImpl → BudgetImpl
after_cpu ty n input b =
    let a = amount b.cpu_insns ty input n in
    track (add_cpu ty a) (record b { cpu_insns = add_count b.is_in_shadow_mode a b.cpu_insns })

abbrev pub after_mem : ContractCostType → ℕ → Option ℕ → BudgetImpl → BudgetImpl
after_mem ty n input b =
    let a = amount b.mem_bytes ty input n in
    track (add_mem ty a) (record b { mem_bytes = add_count b.is_in_shadow_mode a b.mem_bytes })

pub charge_cpu_lem :
    (ty : ContractCostType) (n : ℕ) (input : Option ℕ) (b : BudgetImpl)
    → charge_cpu ty n input b ≡ (
      check_budget_limit b.is_in_shadow_mode (after_cpu ty n input b).cpu_insns,
      after_cpu ty n input b,
    )
unfolding ◌>>=◌ charge_cpu evaluate
charge_cpu_lem ty n none b = refl
charge_cpu_lem ty n (some x) b = refl

pub charge_mem_lem :
    (ty : ContractCostType) (n : ℕ) (input : Option ℕ) (b : BudgetImpl)
    → charge_mem ty n input b ≡ (
      check_budget_limit b.is_in_shadow_mode (after_mem ty n input b).mem_bytes,
      after_mem ty n input b,
    )
unfolding ◌>>=◌ charge_mem evaluate
charge_mem_lem ty n none b = refl
charge_mem_lem ty n (some x) b = refl

-- What a reader outside shadow mode can see of a budget: all but the shadow counts.
pub record SameView (b c : BudgetImpl) : Type 0 where
  pub cpu_models : c.cpu_insns.cost_models ≡ b.cpu_insns.cost_models
  pub mem_models : c.mem_bytes.cost_models ≡ b.mem_bytes.cost_models
  pub cpu_limit : c.cpu_insns.limit ≡ b.cpu_insns.limit
  pub mem_limit : c.mem_bytes.limit ≡ b.mem_bytes.limit
  pub cpu_count : c.cpu_insns.total_count ≡ b.cpu_insns.total_count
  pub mem_count : c.mem_bytes.total_count ≡ b.mem_bytes.total_count
  pub cpu_shadow_limit : c.cpu_insns.shadow_limit ≡ b.cpu_insns.shadow_limit
  pub mem_shadow_limit : c.mem_bytes.shadow_limit ≡ b.mem_bytes.shadow_limit
  pub tracker : c.tracker ≡ b.tracker
  pub fuel_config : c.fuel_config ≡ b.fuel_config
  pub depth_limit : c.depth_limit ≡ b.depth_limit

-- In shadow mode a charge, whether it fails or not, changes the shadow counts alone, and the mode
-- stays.
pub bulk_charge-SameView :
    (ty : ContractCostType) (n : ℕ) (input : Option ℕ) (b : BudgetImpl)
    → b.is_in_shadow_mode ≡ true
    → SameView b (bulk_charge ty n input b).1
      × ((bulk_charge ty n input b).1.is_in_shadow_mode ≡ true)
unfolding ◌>>=◌ bulk_charge charge_inputs track add_count
bulk_charge-SameView ty n input b h =
    ground (arith, charge_cpu_lem ty n input b, charge_mem_lem ty n input (after_cpu ty n input b))
