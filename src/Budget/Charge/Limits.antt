-- ===== src/Budget/Charge/Limits.antt =====
-- When `BudgetImpl::charge` succeeds outside shadow mode, and what it counts.
use rs_stellar_contract_env.Prelude.{
  ℕ, ◌≤◌, ◌≡◌, ◌↔◌, ◌⊎◌, false, Option, none, some, arith, u64_max, saturating_add,
}
use rs_stellar_contract_env.Error.{ok, FailsOnBudget}
use rs_stellar_contract_env.Exec.{◌>>=◌}
use rs_stellar_contract_env.Budget.CostType.{ContractCostType}
use rs_stellar_contract_env.Budget.Dimension.{BudgetDimension, add_count, check_budget_limit}
use rs_stellar_contract_env.Budget.Tracker.{add_input}
use rs_stellar_contract_env.Budget.Charge.{BudgetImpl, charge_inputs, bulk_charge, track}
use rs_stellar_contract_env.Budget.Charge.Laws.{
  amount, after_cpu, after_mem, charge_cpu_lem, charge_mem_lem,
}

-- The count of a resource after a charge.
abbrev pub count_after : BudgetDimension → ContractCostType → Option ℕ → ℕ → ℕ
count_after d ty input n = saturating_add u64_max d.total_count (amount d ty input n)

abbrev pub SameKind : Option ℕ → Option ℕ → Type 0
SameKind none none = Unit
SameKind (some t) (some i) = Unit
SameKind _ _ = ⊥

-- The input is of the kind that the tracker of the type expects.
abbrev pub InputFits : BudgetImpl → ContractCostType → Option ℕ → Type 0
InputFits b ty input = SameKind (b.tracker.cost_tracker ty).inputs input

after_inputs : ContractCostType → ℕ → Option ℕ → BudgetImpl → BudgetImpl
after_inputs ty n input b = (charge_inputs ty n input b).1

-- What the first step of a charge leaves alone.
record KeepsCounts (b c : BudgetImpl) : Type 0 where
  cpu : c.cpu_insns ≡ b.cpu_insns
  mem : c.mem_bytes ≡ b.mem_bytes
  mode : c.is_in_shadow_mode ≡ b.is_in_shadow_mode

charge_inputs-KeepsCounts :
    (ty : ContractCostType) (n : ℕ) (input : Option ℕ) (b : BudgetImpl)
    → KeepsCounts b (charge_inputs ty n input b).1
unfolding charge_inputs
charge_inputs-KeepsCounts ty n input b = ground arith

charge_inputs_fits :
    (ty : ContractCostType) (n : ℕ) (input : Option ℕ) (b : BudgetImpl)
    → b.is_in_shadow_mode ≡ false
    → (InputFits b ty input → (charge_inputs ty n input b).0 ≡ ok tt)
      × ((charge_inputs ty n input b).0 ≡ ok tt → InputFits b ty input)
unfolding charge_inputs add_input
charge_inputs_fits ty n input b h = (λ f. ground arith, λ e. ground arith)

charge_inputs_fails :
    (ty : ContractCostType) (n : ℕ) (input : Option ℕ) (b : BudgetImpl)
    → ((charge_inputs ty n input b).0 ≡ ok tt) ⊎ FailsOnBudget (charge_inputs ty n input b).0
unfolding charge_inputs add_input
charge_inputs_fails ty n input b = ground arith

cpu_check :
    (ty : ContractCostType) (n : ℕ) (input : Option ℕ) (b : BudgetImpl)
    → b.is_in_shadow_mode ≡ false
    → ((after_cpu ty n input b).cpu_insns.total_count ≡ count_after b.cpu_insns ty input n)
      × ((after_cpu ty n input b).cpu_insns.limit ≡ b.cpu_insns.limit)
      × ((after_cpu ty n input b).mem_bytes ≡ b.mem_bytes)
      × ((after_cpu ty n input b).is_in_shadow_mode ≡ false)
unfolding track add_count
cpu_check ty n input b h = ground arith

mem_check :
    (ty : ContractCostType) (n : ℕ) (input : Option ℕ) (b : BudgetImpl)
    → b.is_in_shadow_mode ≡ false
    → ((after_mem ty n input b).mem_bytes.total_count ≡ count_after b.mem_bytes ty input n)
      × ((after_mem ty n input b).mem_bytes.limit ≡ b.mem_bytes.limit)
      × ((after_mem ty n input b).cpu_insns ≡ b.cpu_insns)
      × ((after_mem ty n input b).is_in_shadow_mode ≡ false)
unfolding track add_count
mem_check ty n input b h = ground arith

-- Outside shadow mode a charge succeeds exactly when its input is of the kind that its type
-- expects and the counts that it leads to are within the limits of both resources.
pub bulk_charge_iff :
    (ty : ContractCostType) (n : ℕ) (input : Option ℕ) (b : BudgetImpl)
    → b.is_in_shadow_mode ≡ false
    → ((bulk_charge ty n input b).0 ≡ ok tt) ↔ (
        InputFits b ty input
        × (count_after b.cpu_insns ty input n ≤ b.cpu_insns.limit)
        × (count_after b.mem_bytes ty input n ≤ b.mem_bytes.limit))
unfolding ◌>>=◌ bulk_charge check_budget_limit
bulk_charge_iff ty n input b h =
    let b1 = (charge_inputs ty n input b).1 in
    let b2 = after_cpu ty n input b1 in
    ground (
      arith,
      charge_inputs_fits ty n input b h,
      charge_inputs_fails ty n input b,
      charge_inputs-KeepsCounts ty n input b,
      charge_cpu_lem ty n input b1,
      cpu_check ty n input b1,
      charge_mem_lem ty n input b2,
      mem_check ty n input b2,
    )

-- A charge, from whatever state, succeeds or fails with an error of the budget.
pub bulk_charge_fails :
    (ty : ContractCostType) (n : ℕ) (input : Option ℕ) (b : BudgetImpl)
    → ((bulk_charge ty n input b).0 ≡ ok tt) ⊎ FailsOnBudget (bulk_charge ty n input b).0
unfolding ◌>>=◌ bulk_charge check_budget_limit
bulk_charge_fails ty n input b =
    let b1 = (charge_inputs ty n input b).1 in
    let b2 = after_cpu ty n input b1 in
    ground (
      arith,
      charge_inputs_fails ty n input b,
      charge_cpu_lem ty n input b1,
      charge_mem_lem ty n input b2,
    )

-- Outside shadow mode a charge that succeeds adds its amounts to both counts, stopped at the
-- greatest `u64`, and leaves both within their limits.
pub bulk_charge_counts :
    (ty : ContractCostType) (n : ℕ) (input : Option ℕ) (b : BudgetImpl)
    → b.is_in_shadow_mode ≡ false
    → (bulk_charge ty n input b).0 ≡ ok tt
    → let c = (bulk_charge ty n input b).1 in
      (c.cpu_insns.total_count ≡ count_after b.cpu_insns ty input n)
      × (c.mem_bytes.total_count ≡ count_after b.mem_bytes ty input n)
      × (c.cpu_insns.total_count ≤ c.cpu_insns.limit)
      × (c.mem_bytes.total_count ≤ c.mem_bytes.limit)
unfolding ◌>>=◌ bulk_charge check_budget_limit
bulk_charge_counts ty n input b h e =
    let b1 = (charge_inputs ty n input b).1 in
    let b2 = after_cpu ty n input b1 in
    ground (
      arith,
      charge_inputs_fails ty n input b,
      charge_inputs-KeepsCounts ty n input b,
      charge_cpu_lem ty n input b1,
      cpu_check ty n input b1,
      charge_mem_lem ty n input b2,
      mem_check ty n input b2,
    )
