-- ===== src/Budget/Model/Laws.antt =====
-- What a cost model of soroban-env-host/src/budget/model.rs charges.
use rs_stellar_contract_env.Prelude.{
  ℕ, ◌+◌, ◌*◌, ◌/◌, ◌≤◌, ◌≡◌, ◌↔◌, refl, ap, min, none, some, arith, u64_max,
}
use rs_stellar_contract_env.Prelude.Int.{pos}
use rs_stellar_contract_env.Error.{ok}
use rs_stellar_contract_env.Budget.Model.{
  ScaledU64, scaled, raw, MeteredCostComponent, ContractCostParamEntry, evaluate, add_linear,
  try_from, from_unscaled_u64, unscale,
}

mul_mono : (u x y : ℕ) → x ≤ y → u * x ≤ u * y
mul_mono u x y h = grind arith

pub add_linear_lem :
    (c : ℕ) (l : ScaledU64) (x : ℕ)
    → c ≤ u64_max
    → add_linear (record { const_term = c; lin_term = l }) x
      ≡ min u64_max (c + min u64_max (raw l * x) / 128)
unfolding add_linear
add_linear_lem c (scaled u) x h = ground arith

-- On a constant term within a `u64`, the cost of an input `x` is the constant plus the 128th part
-- of the coefficient times `x`, where the product and the sum stop at the greatest `u64`; without
-- an input it is the constant.
pub evaluate_lem :
    (model : MeteredCostComponent) (x : ℕ)
    → model.const_term ≤ u64_max
    → (evaluate model (some x)
        ≡ ok (min u64_max (model.const_term + min u64_max (raw model.lin_term * x) / 128)))
      × (evaluate model none ≡ ok model.const_term)
unfolding evaluate
evaluate_lem model x h = (ap ok (add_linear_lem model.const_term model.lin_term x h), refl)

-- A larger input never costs less.
pub evaluate_mono :
    (model : MeteredCostComponent) (x y : ℕ)
    → model.const_term ≤ u64_max
    → x ≤ y
    → add_linear model x ≤ add_linear model y
evaluate_mono model x y h le = omega (
  arith,
  add_linear_lem model.const_term model.lin_term x h,
  add_linear_lem model.const_term model.lin_term y h,
  mul_mono (raw model.lin_term) x y le,
)

-- What the network configures is taken exactly when both terms are nonnegative, and unchanged.
pub try_from_lem :
    (e : ContractCostParamEntry) (model : MeteredCostComponent)
    → (try_from e ≡ ok model)
      ↔ ((e.const_term ≡ pos model.const_term) × (e.linear_term ≡ pos (raw model.lin_term)))
unfolding try_from
try_from_lem e model = (λ h. ground arith, λ h. ground arith)

-- Scaling and unscaling give a number back where its scaled form fits into a `u64`.
pub unscale-from_unscaled_u64 : (u : ℕ) → u * 128 ≤ u64_max → unscale (from_unscaled_u64 u) ≡ u
unfolding unscale from_unscaled_u64
unscale-from_unscaled_u64 u h = omega arith
