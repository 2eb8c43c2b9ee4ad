-- ===== src/Tests/BudgetRuns.antt =====
-- The budget's theorems at the default budget.
use rs_stellar_contract_env.Prelude.{
  ℕ, ◌+◌, ◌-◌, ◌*◌, ◌≤◌, ◌<◌, ◌≡◌, ◌↔◌, ◌⊎◌, refl, true, false, none, some, arith, max,
}
use rs_stellar_contract_env.Prelude.Int.{pos}
use rs_stellar_contract_env.Error.{ok, fail, budget, exceeded_limit}
use rs_stellar_contract_env.Exec.{pure}
use rs_stellar_contract_env.Budget.CostType.{mem_cpy, mem_alloc, wasm_insn_exec}
use rs_stellar_contract_env.Budget.Model.{
  MeteredCostComponent, ContractCostParamEntry, add_linear, scaled,
}
use rs_stellar_contract_env.Budget.Dimension
use rs_stellar_contract_env.Budget.Dimension.{check_budget_limit, get_remaining}
use rs_stellar_contract_env.Budget.Dimension.Laws.{charge_times, charge_bulk}
use rs_stellar_contract_env.Budget.Tracker.{init_input}
use rs_stellar_contract_env.Budget.Charge.{BudgetImpl, bulk_charge}
use rs_stellar_contract_env.Budget.Charge.Laws.{SameView}
use rs_stellar_contract_env.Budget.Charge.Limits.{
  InputFits, count_after, bulk_charge_iff, bulk_charge_counts,
}
use rs_stellar_contract_env.Budget.Limits.{nested, within_depth, nested_lem}
use rs_stellar_contract_env.Budget.Shadow.{
  WithinShadow, with_shadow_mode, with_observable_shadow_mode, with_shadow_mode_unobserved,
  with_observable_shadow_mode_lem, IsUnobserved-bulk_charge,
}
use rs_stellar_contract_env.Budget.Fuel.{
  FuelStore, return_fuel_to_host, Running, get_wasmi_fuel_remaining,
}
use rs_stellar_contract_env.Budget.Fuel.Laws.{fuel_covered, return_fuel_to_host_within}
use rs_stellar_contract_env.Budget.Wasmi.{WithinMaximum, memory_growing, memory_growing_iff}
use rs_stellar_contract_env.Budget.Defaults.{default_budget, default_cpu_model, default_mem_model}

bulk_charge_iff_example : ((bulk_charge mem_cpy 2 (some 64) default_budget).0 ≡ ok tt) ↔ (
    InputFits default_budget mem_cpy (some 64)
    × (count_after default_budget.cpu_insns mem_cpy (some 64) 2 ≤ default_budget.cpu_insns.limit)
    × (count_after default_budget.mem_bytes mem_cpy (some 64) 2 ≤ default_budget.mem_bytes.limit))
unfolding default_budget
bulk_charge_iff_example = bulk_charge_iff mem_cpy 2 (some 64) default_budget refl

mem_cpy_succeeds : (bulk_charge mem_cpy 2 (some 64) default_budget).0 ≡ ok tt
unfolding default_budget init_input add_linear default_cpu_model default_mem_model
mem_cpy_succeeds =
    (bulk_charge_iff mem_cpy 2 (some 64) default_budget refl).1 (tt, ground arith, ground arith)

bulk_charge_counts_example :
    let c = (bulk_charge mem_cpy 2 (some 64) default_budget).1 in
    (c.cpu_insns.total_count ≡ count_after default_budget.cpu_insns mem_cpy (some 64) 2)
    × (c.mem_bytes.total_count ≡ count_after default_budget.mem_bytes mem_cpy (some 64) 2)
    × (c.cpu_insns.total_count ≤ c.cpu_insns.limit)
    × (c.mem_bytes.total_count ≤ c.mem_bytes.limit)
unfolding default_budget
bulk_charge_counts_example =
    bulk_charge_counts mem_cpy 2 (some 64) default_budget refl mem_cpy_succeeds

abbrev shadow_budget : BudgetImpl
unfolding default_budget
shadow_budget = record default_budget { is_in_shadow_mode = true }

charge_bulk_example :
    (Dimension.charge mem_cpy 3 (some 64) false default_budget.cpu_insns).1
    ≡ charge_times 3 mem_cpy (some 64) false default_budget.cpu_insns
unfolding default_budget
charge_bulk_example = charge_bulk 3 default_budget.cpu_insns mem_cpy (some 64) false (ground arith)

with_shadow_mode_unobserved_example :
    SameView default_budget (with_shadow_mode (bulk_charge mem_cpy 2 (some 64)) default_budget)
    × ((with_shadow_mode (bulk_charge mem_cpy 2 (some 64)) default_budget).is_in_shadow_mode
        ≡ default_budget.is_in_shadow_mode)
with_shadow_mode_unobserved_example =
    with_shadow_mode_unobserved (bulk_charge mem_cpy 2 (some 64)) default_budget
      (IsUnobserved-bulk_charge mem_cpy 2 (some 64))

with_observable_shadow_mode_lem_example :
    let (r, c) =
      bulk_charge mem_cpy 2 (some 64) (record default_budget { is_in_shadow_mode = true }) in
    (WithinShadow default_budget
      × (with_observable_shadow_mode (bulk_charge mem_cpy 2 (some 64)) default_budget
          ≡ (r, record c { is_in_shadow_mode = default_budget.is_in_shadow_mode })))
    ⊎ ((¬ WithinShadow default_budget)
        × (with_observable_shadow_mode (bulk_charge mem_cpy 2 (some 64)) default_budget
            ≡ (fail budget exceeded_limit, default_budget)))
with_observable_shadow_mode_lem_example =
    with_observable_shadow_mode_lem (bulk_charge mem_cpy 2 (some 64)) default_budget

nested_lem_example :
    ((nested {A = ℕ} 101 (pure 7) default_budget).0 ≡ within_depth 7 101 default_budget.depth_limit)
    × ((nested {A = ℕ} 101 (pure 7) default_budget).1.depth_limit ≡ default_budget.depth_limit)
unfolding default_budget
nested_lem_example = nested_lem 7 101 default_budget (omega arith)

fuel_covered_example :
    let per_fuel = max (default_budget.cpu_insns.cost_models wasm_insn_exec).const_term 1 in
    (25_000_000 * per_fuel ≤ get_remaining default_budget.cpu_insns)
    × (get_remaining default_budget.cpu_insns < 25_000_000 * per_fuel + per_fuel)
unfolding default_budget get_wasmi_fuel_remaining get_remaining
fuel_covered_example = fuel_covered default_budget 25_000_000 (ground arith)

-- An engine whose store is the fuel that it has consumed.
abbrev counting : FuelStore ℕ
counting = record {
  fuel_consumed = ok;
  fuel_total = ok;
  add_fuel = λ n s. (ok tt, s);
  reset_fuel = λ s. (ok tt, 0);
}

abbrev after_run : Running ℕ
after_run = record { store = 1_000_000; host_budget = default_budget }

return_fuel_to_host_within_example :
    let end = return_fuel_to_host counting after_run in
    (end.0 ≡ ok tt)
    × (end.1.store ≡ 0)
    × (end.1.host_budget.cpu_insns.total_count ≤ end.1.host_budget.cpu_insns.limit)
    × (end.1.host_budget.mem_bytes.total_count ≤ end.1.host_budget.mem_bytes.limit)
unfolding default_budget init_input get_wasmi_fuel_remaining get_remaining
return_fuel_to_host_within_example =
    return_fuel_to_host_within counting after_run 25_000_000 1_000_000 refl tt refl (omega arith)
      (omega arith) (ground arith) refl (omega arith)

memory_growing_iff_example : ((memory_growing 65_536 131_072 none default_budget).0 ≡ some true) ↔ (
    (131_072 - 65_536 ≤ get_remaining default_budget.mem_bytes)
    × WithinMaximum 131_072 none
    × (count_after default_budget.cpu_insns mem_alloc (some (131_072 - 65_536)) 1
        ≤ default_budget.cpu_insns.limit)
    × (count_after default_budget.mem_bytes mem_alloc (some (131_072 - 65_536)) 1
        ≤ default_budget.mem_bytes.limit))
unfolding default_budget init_input
memory_growing_iff_example = memory_growing_iff 65_536 131_072 none default_budget refl tt

abbrev linear_model : MeteredCostComponent
linear_model = record { const_term = 42; lin_term = scaled 16 }

abbrev linear_entry : ContractCostParamEntry
linear_entry = record { const_term = pos 42; linear_term = pos 16 }
