-- ===== src/Budget/Reset.antt =====
-- soroban-env-host/src/budget/util.rs and soroban-env-host/src/budget.rs: the methods of `Budget`
-- that set and read its parts.
use rs_stellar_contract_env.Prelude.{
  ℕ, ◌≡◌, refl, Bool, false, Option, none, some, arith, u64_max, ltb,
}
use rs_stellar_contract_env.Error.{Result, ok_or, from_type_and_code, budget, internal_error}
use rs_stellar_contract_env.Budget.CostType.{ContractCostType, get, set}
use rs_stellar_contract_env.Budget.Model.{ScaledU64, MeteredCostComponent, from_unscaled_u64}
use rs_stellar_contract_env.Budget.Dimension
use rs_stellar_contract_env.Budget.Dimension.{
  BudgetDimension, get_cost_model, get_total_count, get_remaining,
}
use rs_stellar_contract_env.Budget.Tracker
use rs_stellar_contract_env.Budget.Tracker.{CostTracker}
use rs_stellar_contract_env.Budget.Charge.{BudgetImpl}
use rs_stellar_contract_env.Budget.Charge.Limits.{InputFits, SameKind}

unfoldable pub reset_models : BudgetImpl → BudgetImpl
unfolding Dimension.reset_models
reset_models b = record b {
  cpu_insns = Dimension.reset_models b.cpu_insns;
  mem_bytes = Dimension.reset_models b.mem_bytes;
}

unfoldable pub reset_tracker : BudgetImpl → BudgetImpl
unfolding Tracker.reset
reset_tracker b = record b { tracker = Tracker.reset b.tracker }

unfoldable pub reset_unlimited_cpu : BudgetImpl → BudgetImpl
unfolding Dimension.reset reset_tracker
reset_unlimited_cpu b = reset_tracker (record b { cpu_insns = Dimension.reset u64_max b.cpu_insns })

unfoldable pub reset_unlimited_mem : BudgetImpl → BudgetImpl
unfolding Dimension.reset reset_tracker
reset_unlimited_mem b = reset_tracker (record b { mem_bytes = Dimension.reset u64_max b.mem_bytes })

unfoldable pub reset_unlimited : BudgetImpl → BudgetImpl
unfolding reset_unlimited_cpu reset_unlimited_mem
reset_unlimited b = reset_unlimited_mem (reset_unlimited_cpu b)

unfoldable pub reset_limits : ℕ → ℕ → BudgetImpl → BudgetImpl
unfolding Dimension.reset reset_tracker
reset_limits cpu mem b = reset_tracker (record b {
  cpu_insns = Dimension.reset cpu b.cpu_insns;
  mem_bytes = Dimension.reset mem b.mem_bytes;
})

unfoldable pub cpu_limit_exceeded : BudgetImpl → Bool
cpu_limit_exceeded b = ltb b.cpu_insns.limit b.cpu_insns.total_count

unfoldable pub mem_limit_exceeded : BudgetImpl → Bool
mem_limit_exceeded b = ltb b.mem_bytes.limit b.mem_bytes.total_count

unfoldable pub shadow_cpu_limit_exceeded : BudgetImpl → Bool
shadow_cpu_limit_exceeded b = ltb b.cpu_insns.shadow_limit b.cpu_insns.shadow_total_count

unfoldable pub shadow_mem_limit_exceeded : BudgetImpl → Bool
shadow_mem_limit_exceeded b = ltb b.mem_bytes.shadow_limit b.mem_bytes.shadow_total_count

unfoldable pub get_tracker : BudgetImpl → ContractCostType → Result CostTracker
get_tracker b ty = ok_or (get b.tracker.cost_tracker ty) (from_type_and_code budget internal_error)

unfoldable pub get_cpu_insns_consumed : BudgetImpl → ℕ
unfolding get_total_count
get_cpu_insns_consumed b = get_total_count b.cpu_insns

unfoldable pub get_mem_bytes_consumed : BudgetImpl → ℕ
unfolding get_total_count
get_mem_bytes_consumed b = get_total_count b.mem_bytes

unfoldable pub get_cpu_insns_remaining : BudgetImpl → ℕ
unfolding get_remaining
get_cpu_insns_remaining b = get_remaining b.cpu_insns

unfoldable pub get_mem_bytes_remaining : BudgetImpl → ℕ
unfolding get_remaining
get_mem_bytes_remaining b = get_remaining b.mem_bytes

-- One model is replaced; the models of the other types stay.
unfoldable pub set_model :
    ContractCostType → MeteredCostComponent → BudgetDimension → BudgetDimension
unfolding set
set_model ty model d = record d { cost_models = set d.cost_models ty model }

unfoldable pub override_model_with_scaled_params :
    ContractCostType → ℕ → ScaledU64 → ℕ → ScaledU64 → BudgetImpl → BudgetImpl
unfolding set_model
override_model_with_scaled_params ty const_cpu lin_cpu const_mem lin_mem b = record b {
  cpu_insns = set_model ty (record { const_term = const_cpu; lin_term = lin_cpu }) b.cpu_insns;
  mem_bytes = set_model ty (record { const_term = const_mem; lin_term = lin_mem }) b.mem_bytes;
}

unfoldable pub override_model_with_unscaled_params :
    ContractCostType → ℕ → ℕ → ℕ → ℕ → BudgetImpl → BudgetImpl
unfolding override_model_with_scaled_params from_unscaled_u64
override_model_with_unscaled_params ty const_cpu lin_cpu const_mem lin_mem =
    override_model_with_scaled_params ty const_cpu (from_unscaled_u64 lin_cpu) const_mem
      (from_unscaled_u64 lin_mem)

SameKind-reset : (i j : Option ℕ) → SameKind i j → SameKind (Tracker.zero_input i) j
SameKind-reset none none h = tt
SameKind-reset (some i) (some j) h = tt
SameKind-reset none (some j) h = absurd h
SameKind-reset (some i) none h = absurd h

-- After new limits are set all of them is left, no limit is exceeded, in shadow mode either, the
-- trackers are empty, and a charge whose input fitted its tracker still does.
pub reset_limits_lem :
    (cpu mem : ℕ) (b : BudgetImpl) (ty : ContractCostType) (input : Option ℕ)
    → InputFits b ty input
    → let c = reset_limits cpu mem b in
      (get_cpu_insns_remaining c ≡ cpu)
      × (get_mem_bytes_remaining c ≡ mem)
      × (cpu_limit_exceeded c ≡ false)
      × (mem_limit_exceeded c ≡ false)
      × (shadow_cpu_limit_exceeded c ≡ false)
      × (shadow_mem_limit_exceeded c ≡ false)
      × ((c.tracker.cost_tracker ty).iterations ≡ 0)
      × InputFits c ty input
unfolding reset_limits get_cpu_insns_remaining get_mem_bytes_remaining cpu_limit_exceeded
    mem_limit_exceeded shadow_cpu_limit_exceeded shadow_mem_limit_exceeded
reset_limits_lem cpu mem b ty input fits = (
  omega arith,
  omega arith,
  ground arith,
  ground arith,
  ground arith,
  ground arith,
  refl,
  SameKind-reset (b.tracker.cost_tracker ty).inputs input fits,
)
