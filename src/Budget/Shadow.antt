-- ===== src/Budget/Shadow.antt =====
-- soroban-env-host/src/budget.rs and soroban-env-host/src/budget/util.rs: running a body in shadow
-- mode, where its charges go to the shadow counts.
use rs_stellar_contract_env.Prelude.{
  ℕ, ◌≤◌, ◌<◌, ltb, Bool-cases, inl, inr, ◌≡◌, refl, ◌∙◌, ◌⊎◌, Bool, true, Option, arith,
}
use rs_stellar_contract_env.Error.{Result, ok, err, bind, fail, budget, exceeded_limit}
use rs_stellar_contract_env.Exec.{Exec, ◌>>=◌, continue}
use rs_stellar_contract_env.Budget.CostType.{ContractCostType}
use rs_stellar_contract_env.Budget.Dimension.{BudgetDimension, check_budget_limit}
use rs_stellar_contract_env.Budget.Charge.{BudgetImpl, bulk_charge}
use rs_stellar_contract_env.Budget.Charge.Laws.{SameView, bulk_charge-SameView}

-- The mode is on and both shadow limits are checked.
unfoldable pub enter_shadow_mode : Exec BudgetImpl (Unit {0})
unfolding check_budget_limit
enter_shadow_mode b = (
  bind (check_budget_limit true b.cpu_insns) (λ _. check_budget_limit true b.mem_bytes),
  record b { is_in_shadow_mode = true },
)

-- The body, unless the check failed.
unfoldable pub run_if_ok {ℓ} :
    {A : Type ℓ} → Result (Unit {0}) → Exec BudgetImpl A → Exec BudgetImpl A
run_if_ok (ok _) f b = f b
run_if_ok (err e) f b = (err e, b)

-- `with_observable_shadow_mode`: the result of the body comes back, and the mode that was.
unfoldable pub with_observable_shadow_mode {ℓ} :
    {A : Type ℓ} → Exec BudgetImpl A → Exec BudgetImpl A
unfolding enter_shadow_mode run_if_ok
with_observable_shadow_mode f b =
    let (should_execute, b') = enter_shadow_mode b in
    let (rt, b'') = run_if_ok should_execute f b' in
    (rt, record b'' { is_in_shadow_mode = b.is_in_shadow_mode })

-- `with_shadow_mode`: the same, and whatever the body returns is dropped.
unfoldable pub with_shadow_mode {ℓ} : {A : Type ℓ} → Exec BudgetImpl A → BudgetImpl → BudgetImpl
unfolding enter_shadow_mode run_if_ok
with_shadow_mode f b =
    let (checked, b') = enter_shadow_mode b in
    let (dropped, b'') = run_if_ok checked f b' in
    record b'' { is_in_shadow_mode = b.is_in_shadow_mode }

unfoldable pub set_shadow_limits : ℕ → ℕ → BudgetImpl → BudgetImpl
set_shadow_limits cpu mem b = record b {
  cpu_insns = record b.cpu_insns { shadow_limit = cpu };
  mem_bytes = record b.mem_bytes { shadow_limit = mem };
}

-- A body that in shadow mode changes the shadow counts alone and stays in the mode.
pub record IsUnobserved {ℓ} {A : Type ℓ} (f : Exec BudgetImpl A) : Type ℓ where
  pub at :
      (b : BudgetImpl)
      → b.is_in_shadow_mode ≡ true
      → SameView b (f b).1 × ((f b).1.is_in_shadow_mode ≡ true)

pub IsUnobserved-bulk_charge :
    (ty : ContractCostType) (n : ℕ) (input : Option ℕ) → IsUnobserved (bulk_charge ty n input)
IsUnobserved-bulk_charge ty n input = record { at = bulk_charge-SameView ty n input }

SameView-trans : (a b c : BudgetImpl) → SameView a b → SameView b c → SameView a c
SameView-trans a b c h k = record {
  cpu_models = k.cpu_models ∙ h.cpu_models;
  mem_models = k.mem_models ∙ h.mem_models;
  cpu_limit = k.cpu_limit ∙ h.cpu_limit;
  mem_limit = k.mem_limit ∙ h.mem_limit;
  cpu_count = k.cpu_count ∙ h.cpu_count;
  mem_count = k.mem_count ∙ h.mem_count;
  cpu_shadow_limit = k.cpu_shadow_limit ∙ h.cpu_shadow_limit;
  mem_shadow_limit = k.mem_shadow_limit ∙ h.mem_shadow_limit;
  tracker = k.tracker ∙ h.tracker;
  fuel_config = k.fuel_config ∙ h.fuel_config;
  depth_limit = k.depth_limit ∙ h.depth_limit;
}

pub SameView-refl : (b : BudgetImpl) → SameView b b
SameView-refl b = record {
  cpu_models = refl;
  mem_models = refl;
  cpu_limit = refl;
  mem_limit = refl;
  cpu_count = refl;
  mem_count = refl;
  cpu_shadow_limit = refl;
  mem_shadow_limit = refl;
  tracker = refl;
  fuel_config = refl;
  depth_limit = refl;
}

-- One unobserved body after another, the second as it depends on the result of the first.
pub IsUnobserved-bind {ℓ} :
    {A B : Type ℓ} (m : Exec BudgetImpl A) (f : A → Exec BudgetImpl B)
    → IsUnobserved m
    → ((a : A) → IsUnobserved (f a))
    → IsUnobserved (m >>= f)
unfolding ◌>>=◌
IsUnobserved-bind {A = A} {B = B} m f hm hf = record { at = λ b s. after b (m b) (hm.at b s) }
  where
    after :
        (b : BudgetImpl) (x : Result A × BudgetImpl)
        → SameView b x.1 × (x.1.is_in_shadow_mode ≡ true)
        → SameView b (continue x.0 f x.1).1 × ((continue x.0 f x.1).1.is_in_shadow_mode ≡ true)
    after b (ok a, c) h = let k = (hf a).at c h.1 in (SameView-trans b c (f a c).1 h.0 k.0, k.1)
    after b (err e, c) h = h

run_if_ok-SameView {ℓ} :
    {A : Type ℓ} (r : Result (Unit {0})) (f : Exec BudgetImpl A) (b : BudgetImpl)
    → IsUnobserved f
    → b.is_in_shadow_mode ≡ true
    → SameView b (run_if_ok r f b).1
unfolding run_if_ok
run_if_ok-SameView (ok _) f b h s = (h.at b s).0
run_if_ok-SameView (err e) f b h s = SameView-refl b

-- The mode is no part of the view.
restore-SameView :
    (b c : BudgetImpl) (s : Bool)
    → SameView (record b { is_in_shadow_mode = true }) c
    → SameView b (record c { is_in_shadow_mode = s })
restore-SameView b c s h = assumption h

-- What runs in shadow mode is not observed: whatever an unobserved body returns, also an error, and
-- also where a shadow limit is exceeded, all of the budget but the shadow counts is as before, and
-- so is the mode.
pub with_shadow_mode_unobserved {ℓ} :
    {A : Type ℓ} (f : Exec BudgetImpl A) (b : BudgetImpl)
    → IsUnobserved f
    → SameView b (with_shadow_mode f b)
      × ((with_shadow_mode f b).is_in_shadow_mode ≡ b.is_in_shadow_mode)
unfolding with_shadow_mode
with_shadow_mode_unobserved f b h =
    let (checked, b') = enter_shadow_mode b in
    (
      restore-SameView b (run_if_ok checked f b').1 b.is_in_shadow_mode
          (run_if_ok-SameView checked f b' h refl),
      refl,
    )

-- The shadow counts of both resources are within their limits.
abbrev pub WithinShadow : BudgetImpl → Type 0
WithinShadow b =
    (b.cpu_insns.shadow_total_count ≤ b.cpu_insns.shadow_limit)
    × (b.mem_bytes.shadow_total_count ≤ b.mem_bytes.shadow_limit)

shadow_check :
    (d : BudgetDimension)
    → ((d.shadow_total_count ≤ d.shadow_limit) × (check_budget_limit true d ≡ ok tt))
      ⊎ ((d.shadow_limit < d.shadow_total_count)
          × (check_budget_limit true d ≡ fail budget exceeded_limit))
unfolding check_budget_limit
shadow_check d = elim (Bool-cases (ltb d.shadow_limit d.shadow_total_count)) [
  | inl e ↦ inr (ground arith, rw e)
  | inr e ↦ inl (ground arith, rw e)
]

-- Where the shadow counts are within their limits, the variant that returns the body's result runs
-- the body in shadow mode: its result is the body's, also an error, and so is its budget, but for
-- the mode, which is what it was. Otherwise the body is not run, the result is the error of an
-- exceeded limit, and the budget is as before.
pub with_observable_shadow_mode_lem {ℓ} :
    {A : Type ℓ} (f : Exec BudgetImpl A) (b : BudgetImpl)
    → let (r, c) = f (record b { is_in_shadow_mode = true }) in
      (WithinShadow b
        × (with_observable_shadow_mode f b
            ≡ (r, record c { is_in_shadow_mode = b.is_in_shadow_mode })))
      ⊎ ((¬ WithinShadow b) × (with_observable_shadow_mode f b ≡ (fail budget exceeded_limit, b)))
unfolding with_observable_shadow_mode enter_shadow_mode run_if_ok
with_observable_shadow_mode_lem f b = elim (shadow_check b.cpu_insns) [
  | inr (over, e) ↦ inr ((λ h. absurd (omega (arith, h.0, over))), rw e)
  | inl (cpu, e) ↦ elim (shadow_check b.mem_bytes) [
    | inr (over, g) ↦ inr ((λ h. absurd (omega (arith, h.1, over))), rw (e, g))
    | inl (mem, g) ↦ inl ((cpu, mem), rw (e, g))
  ]
]
