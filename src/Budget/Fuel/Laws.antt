-- ===== src/Budget/Fuel/Laws.antt =====
-- The fuel that is handed to the engine and comes back, against the cpu budget.
use native.Mathlib.Nat.{le_trans}
use rs_stellar_contract_env.Prelude.{
  ℕ, refl, false, ◌+◌, ◌-◌, ◌*◌, ◌/◌, ◌≤◌, ◌<◌, ◌≡◌, max, none, arith,
}
use rs_stellar_contract_env.Error.{ok}
use rs_stellar_contract_env.Budget.CostType.{wasm_insn_exec}
use rs_stellar_contract_env.Budget.Dimension.{BudgetDimension, get_remaining}
use rs_stellar_contract_env.Budget.Charge.{BudgetImpl}
use rs_stellar_contract_env.Budget.Charge.Limits.{
  count_after, InputFits, bulk_charge_iff, bulk_charge_counts,
}
use rs_stellar_contract_env.Budget.Fuel.{
  get_wasmi_fuel_remaining, FuelStore, Running, on_store, on_budget, return_fuel_to_host,
}
use rs_stellar_contract_env.Exec.{◌>>=◌, gets, lift, zoom}

quotient_bounds : (r c : ℕ) → 0 < c → (r / c * c ≤ r) × (r < r / c * c + c)
quotient_bounds r c h = (grind arith, grind arith)

product_le : (c m f q : ℕ) → c ≤ m → f ≤ q → c * f ≤ q * m
product_le c m f q h k = le_trans (left c m f h) (right m f q k)
  where
    left : (c m f : ℕ) → c ≤ m → c * f ≤ f * m
    left c m f h = grind arith

    right : (m f q : ℕ) → f ≤ q → f * m ≤ q * m
    right m f q h = grind arith

-- The fuel handed out is what the remaining cpu instructions pay for: they are at least its cost,
-- and less than the cost of one unit is left over.
pub fuel_covered :
    (b : BudgetImpl) (fuel : ℕ)
    → get_wasmi_fuel_remaining b ≡ ok fuel
    → let per_fuel = max (b.cpu_insns.cost_models wasm_insn_exec).const_term 1 in
      (fuel * per_fuel ≤ get_remaining b.cpu_insns)
      × (get_remaining b.cpu_insns < fuel * per_fuel + per_fuel)
unfolding get_wasmi_fuel_remaining
fuel_covered b fuel h =
    let q =
      quotient_bounds (b.cpu_insns.limit - b.cpu_insns.total_count)
        (max (b.cpu_insns.cost_models wasm_insn_exec).const_term 1) (omega arith) in
    ground arith

-- The count that the charge for the consumed fuel leads to.
consumed_within :
    (b : BudgetImpl) (fuel consumed : ℕ)
    → get_wasmi_fuel_remaining b ≡ ok fuel
    → consumed ≤ fuel
    → b.cpu_insns.total_count ≤ b.cpu_insns.limit
    → count_after b.cpu_insns wasm_insn_exec none consumed ≤ b.cpu_insns.limit
unfolding get_remaining
consumed_within b fuel consumed h le fits =
    let c = (b.cpu_insns.cost_models wasm_insn_exec).const_term in
    let cover = (fuel_covered b fuel h).0 in
    let cost = product_le c (max c 1) consumed fuel (omega arith) le in ground arith

free_within :
    (d : BudgetDimension) (n : ℕ)
    → (d.cost_models wasm_insn_exec).const_term ≡ 0
    → d.total_count ≤ d.limit
    → count_after d wasm_insn_exec none n ≤ d.limit
free_within d n z h =
    let nothing : (d.cost_models wasm_insn_exec).const_term * n ≡ 0 = rw z (omega arith) in
    ground arith

-- Outside shadow mode, for a budget that is within both limits, whose tracker counts instructions
-- without an input and for which an instruction takes no memory: where the engine has consumed no
-- more fuel than the budget had left to hand out, returning the fuel never fails on the budget. It
-- ends as the reset of the engine's fuel does, with the cpu and memory counts within their limits.
pub return_fuel_to_host_within :
    {S : Type 0} (engine : FuelStore S) (r : Running S) (fuel consumed : ℕ)
    → r.host_budget.is_in_shadow_mode ≡ false
    → InputFits r.host_budget wasm_insn_exec none
    → (r.host_budget.mem_bytes.cost_models wasm_insn_exec).const_term ≡ 0
    → r.host_budget.cpu_insns.total_count ≤ r.host_budget.cpu_insns.limit
    → r.host_budget.mem_bytes.total_count ≤ r.host_budget.mem_bytes.limit
    → get_wasmi_fuel_remaining r.host_budget ≡ ok fuel
    → engine.fuel_consumed r.store ≡ ok consumed
    → consumed ≤ fuel
    → let end = return_fuel_to_host engine r in
      (end.0 ≡ (engine.reset_fuel r.store).0)
      × (end.1.store ≡ (engine.reset_fuel r.store).1)
      × (end.1.host_budget.cpu_insns.total_count ≤ end.1.host_budget.cpu_insns.limit)
      × (end.1.host_budget.mem_bytes.total_count ≤ end.1.host_budget.mem_bytes.limit)
unfolding return_fuel_to_host on_store on_budget ◌>>=◌ gets lift zoom
return_fuel_to_host_within engine r fuel consumed mode kind free cpu mem handed used le =
    let b = r.host_budget in
    let passes = (bulk_charge_iff wasm_insn_exec consumed none b mode).1 (
      kind,
      consumed_within b fuel consumed handed le cpu,
      free_within b.mem_bytes consumed free mem,
    ) in
    let counts = bulk_charge_counts wasm_insn_exec consumed none b mode passes in
    rw (used, passes) (refl, refl, counts.2, counts.3)
