-- ===== src/Budget/Dimension/Laws.antt =====
-- What charging one resource does to its counts.
use rs_stellar_contract_env.Prelude.{
  ℕ, zero, suc, ◌≤◌, ◌≡◌, ◌↔◌, refl, ap, Bool, true, false, Option, none, some, arith, u64_max,
  saturating_add, saturating_mul, if◌then◌else◌, saturating_add-eq-min, saturating_mul-eq-min, sym,
  ◌<◌,
}
use rs_stellar_contract_env.Error.{ok, fail, budget, exceeded_limit}
use rs_stellar_contract_env.Budget.CostType.{ContractCostType}
use rs_stellar_contract_env.Budget.Model.{evaluate, add_linear}
use rs_stellar_contract_env.Budget.Dimension.{
  BudgetDimension, charge, check_budget_limit, add_count,
}

-- The cost of one unit by the model of its type.
abbrev pub unit_cost : BudgetDimension → ContractCostType → Option ℕ → ℕ
unit_cost d ty input = elim input [
  | none ↦ (d.cost_models ty).const_term
  | some x ↦ add_linear (d.cost_models ty) x
]

-- `charge` never fails: it returns the amount, the cost of a unit times the iterations, stopped at
-- the greatest `u64`, and adds it to the count of its mode.
pub charge_lem :
    (d : BudgetDimension) (ty : ContractCostType) (iterations : ℕ) (input : Option ℕ)
    (is_shadow : Bool)
    → charge ty iterations input is_shadow d ≡ (
      ok (saturating_mul u64_max (unit_cost d ty input) iterations),
      add_count is_shadow (saturating_mul u64_max (unit_cost d ty input) iterations) d,
    )
unfolding charge evaluate
charge_lem d ty iterations none is_shadow = refl
charge_lem d ty iterations (some x) is_shadow = refl

-- `n` single charges in a row.
unfoldable pub charge_times :
    ℕ → ContractCostType → Option ℕ → Bool → BudgetDimension → BudgetDimension
charge_times zero ty input is_shadow d = d
charge_times (suc n) ty input is_shadow d =
    charge_times n ty input is_shadow (charge ty 1 input is_shadow d).1

-- A count that is within a `u64`.
abbrev pub CountsFit : BudgetDimension → Type 0
CountsFit d = (d.total_count ≤ u64_max) × (d.shadow_total_count ≤ u64_max)

saturating_split :
    (c n t : ℕ)
    → saturating_add u64_max
        (saturating_add u64_max t (saturating_mul u64_max c 1))
        (saturating_mul u64_max c n)
      ≡ saturating_add u64_max t (saturating_mul u64_max c (suc n))
saturating_split c n t = omega (
  arith,
  saturating_add-eq-min u64_max t (saturating_mul u64_max c 1),
  saturating_add-eq-min u64_max (saturating_add u64_max t (saturating_mul u64_max c 1))
      (saturating_mul u64_max c n),
  saturating_add-eq-min u64_max t (saturating_mul u64_max c (suc n)),
  saturating_mul-eq-min u64_max c 1,
  saturating_mul-eq-min u64_max c n,
  saturating_mul-eq-min u64_max c (suc n),
)

add_count_split :
    (s : Bool) (c n : ℕ) (d : BudgetDimension)
    → add_count s (saturating_mul u64_max c n) (add_count s (saturating_mul u64_max c 1) d)
      ≡ add_count s (saturating_mul u64_max c (suc n)) d
unfolding add_count
add_count_split true c n d =
    ap (λ k. record d { shadow_total_count = k }) (saturating_split c n d.shadow_total_count)
add_count_split false c n d =
    ap (λ k. record d { total_count = k }) (saturating_split c n d.total_count)

zero_fits : (c t : ℕ) → t ≤ u64_max → saturating_add u64_max t (saturating_mul u64_max c 0) ≡ t
zero_fits c t h = ground arith

add_count_zero :
    (s : Bool) (c : ℕ) (d : BudgetDimension)
    → CountsFit d
    → add_count s (saturating_mul u64_max c 0) d ≡ d
unfolding add_count
add_count_zero true c d h =
    ap (λ k. record d { shadow_total_count = k }) (zero_fits c d.shadow_total_count h.1)
add_count_zero false c d h = ap (λ k. record d { total_count = k }) (zero_fits c d.total_count h.0)

unit_cost-add_count :
    (s : Bool) (a : ℕ) (d : BudgetDimension) (ty : ContractCostType) (input : Option ℕ)
    → unit_cost (add_count s a d) ty input ≡ unit_cost d ty input
unfolding add_count
unit_cost-add_count true a d ty input = refl
unit_cost-add_count false a d ty input = refl

pub add_count-CountsFit :
    (s : Bool) (a : ℕ) (d : BudgetDimension) → CountsFit d → CountsFit (add_count s a d)
unfolding add_count
add_count-CountsFit true a d h = (h.0, ground arith)
add_count-CountsFit false a d h = (ground arith, h.1)

-- Charging `n` iterations at once leaves the dimension as `n` single charges leave it, also where
-- the count stops at the greatest `u64`.
pub charge_bulk :
    (n : ℕ) (d : BudgetDimension) (ty : ContractCostType) (input : Option ℕ) (is_shadow : Bool)
    → CountsFit d
    → (charge ty n input is_shadow d).1 ≡ charge_times n ty input is_shadow d
unfolding charge_times
charge_bulk zero d ty input s h = rw charge_lem (add_count_zero s (unit_cost d ty input) d h)
charge_bulk (suc n) d ty input s h =
    let c = unit_cost d ty input in
    let d' = add_count s (saturating_mul u64_max c 1) d in
    rw (charge_lem d ty 1 input s) (
      rw (← charge_bulk n d' ty input s (add_count-CountsFit s (saturating_mul u64_max c 1) d h)) (
        rw (charge_lem d' ty n input s) (
          rw (charge_lem d ty (suc n) input s) (
            rw (unit_cost-add_count s (saturating_mul u64_max c 1) d ty input)
              (sym (add_count_split s c n d))))))

-- The limit check passes exactly when the count of its mode is within its limit, and is the budget's
-- error of an exceeded limit exactly when the count is above it.
pub check_budget_limit_lem :
    (is_shadow : Bool) (d : BudgetDimension)
    → let count = if is_shadow then d.shadow_total_count else d.total_count in
      let limit = if is_shadow then d.shadow_limit else d.limit in
      ((check_budget_limit is_shadow d ≡ ok tt) ↔ (count ≤ limit))
      × ((check_budget_limit is_shadow d ≡ fail budget exceeded_limit) ↔ (limit < count))
unfolding check_budget_limit
check_budget_limit_lem true d =
    ((λ h. ground arith, λ h. ground arith), (λ h. ground arith, λ h. ground arith))
check_budget_limit_lem false d =
    ((λ h. ground arith, λ h. ground arith), (λ h. ground arith, λ h. ground arith))
