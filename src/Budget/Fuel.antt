-- ===== src/Budget/Fuel.antt =====
-- The fuel that the WebAssembly engine runs on: `get_wasmi_fuel_remaining` of
-- soroban-env-host/src/budget.rs and the trait of soroban-env-host/src/vm/fuel_refillable.rs. The
-- engine's store is outside the repository, and a parameter.
pub mod Laws
use rs_stellar_contract_env.Prelude.{
  ℕ, Bool, true, false, Option, none, some, not, if◌then◌else◌, ◌==◌, max, checked_div,
}
use rs_stellar_contract_env.Error.{
  HostError, Result, ok, err, fail, bind, budget, wasm_vm, internal_error,
}
use rs_stellar_contract_env.Exec.{Exec, pure, lift, gets, zoom, ◌>>=◌, ◌>>◌}
use rs_stellar_contract_env.Budget.CostType.{wasm_insn_exec}
use rs_stellar_contract_env.Budget.Dimension.{get_cost_model, get_remaining}
use rs_stellar_contract_env.Budget.Charge.{BudgetImpl, bulk_charge}

unfoldable pub get_wasmi_fuel_remaining : BudgetImpl → Result ℕ
unfolding get_remaining get_cost_model
get_wasmi_fuel_remaining b = elim (get_cost_model b.cpu_insns wasm_insn_exec) [
  | none ↦ fail budget internal_error
  | some cost_model ↦
      let cpu_per_fuel = max cost_model.const_term 1 in
      ok (elim (checked_div (get_remaining b.cpu_insns) cpu_per_fuel) [
        | some fuel ↦ fuel
        | none ↦ 0
      ])
]

-- The engine's store, with its errors converted to host errors.
pub record FuelStore (S : Type 0) : Type 0 where
  pub fuel_consumed : S → Result ℕ
  pub fuel_total : S → Result ℕ
  pub add_fuel : ℕ → Exec S (Unit {0})
  pub reset_fuel : Exec S (Unit {0})

-- A store beside the host's budget.
pub record Running (S : Type 0) : Type 0 where
  pub store : S
  pub host_budget : BudgetImpl

module _ {S : Type 0} (engine : FuelStore S) where
  -- `fuel_consumed()? == 0 && fuel_total()? == 0`: the second is not asked where the first fails
  unfoldable pub is_clean : S → Result Bool
  is_clean s = bind (engine.fuel_consumed s) λ consumed.
      if consumed == 0 then bind (engine.fuel_total s) (λ total. ok (total == 0)) else ok false

  unfoldable pub on_store {ℓ} : {A : Type ℓ} → Exec S A → Exec (Running S) A
  unfolding zoom
  on_store = zoom (λ r. r.store) (λ s r. record r { store = s })

  unfoldable pub on_budget {ℓ} : {A : Type ℓ} → Exec BudgetImpl A → Exec (Running S) A
  unfolding zoom
  on_budget = zoom (λ r. r.host_budget) (λ b r. record r { host_budget = b })

  unfoldable pub add_fuel_to_vm : Exec (Running S) (Unit {0})
  unfolding ◌>>=◌ is_clean on_store
  add_fuel_to_vm = do
    r ← gets (λ r. r)
    clean ← lift (is_clean r.store)
    if not clean then lift (fail wasm_vm internal_error) else do
      fuel ← lift (get_wasmi_fuel_remaining r.host_budget)
      on_store (engine.add_fuel fuel)

  unfoldable pub return_fuel_to_host : Exec (Running S) (Unit {0})
  unfolding ◌>>=◌ on_store on_budget
  return_fuel_to_host = do
    r ← gets (λ r. r)
    fuel ← lift (engine.fuel_consumed r.store)
    on_budget (bulk_charge wasm_insn_exec fuel none)
    on_store engine.reset_fuel
