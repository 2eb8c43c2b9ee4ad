-- ===== src/Budget/Model.antt =====
-- soroban-env-host/src/budget/model.rs: the linear cost models.
pub mod Laws
use rs_stellar_contract_env.Prelude.{
  ℕ, zero, ◌+◌, ◌*◌, ◌/◌, ◌%◌, ◌^◌, Bool, true, false, Option, none, some, ◌==◌, ◌||◌,
  if◌then◌else◌, ltb, u64_max, saturating_add, saturating_mul, checked_div,
}
use rs_stellar_contract_env.Error.{Result, ok, err, fail, context, invalid_input}
use rs_stellar_contract_env.Prelude.Int.{ℤ, pos, negsuc, is_negative, pos_part}

-- `COST_MODEL_LIN_TERM_SCALE_BITS`
abbrev pub cost_model_lin_term_scale_bits : ℕ
cost_model_lin_term_scale_bits = 7

-- A value scaled by 2^7.
pub data ScaledU64 : Type 0 where
  scaled : ℕ → ScaledU64

abbrev pub raw : ScaledU64 → ℕ
raw (scaled u) = u

-- `u << 7` on a `u64` drops the bits that leave the word
unfoldable pub from_unscaled_u64 : ℕ → ScaledU64
from_unscaled_u64 u = scaled (u * 2 ^ cost_model_lin_term_scale_bits % 2 ^ 64)

unfoldable pub unscale : ScaledU64 → ℕ
unscale (scaled u) = u / 2 ^ cost_model_lin_term_scale_bits

unfoldable pub is_zero : ScaledU64 → Bool
is_zero (scaled u) = u == 0

unfoldable pub scaled_mul : ScaledU64 → ℕ → ScaledU64
scaled_mul (scaled u) rhs = scaled (saturating_mul u64_max u rhs)

unfoldable pub safe_div : ScaledU64 → ℕ → ScaledU64
safe_div (scaled u) rhs = scaled (elim (checked_div u rhs) [ some v ↦ v | none ↦ 0 ])

pub record MeteredCostComponent : Type 0 where
  pub const_term : ℕ
  pub lin_term : ScaledU64

-- `Default`, and what `reset` leaves
abbrev pub zero_model : MeteredCostComponent
zero_model = record { const_term = 0; lin_term = scaled 0 }

-- An entry of the cost parameters that the network configures, of signed 64-bit terms.
pub record ContractCostParamEntry : Type 0 where
  pub const_term : ℤ
  pub linear_term : ℤ

unfoldable pub try_from : ContractCostParamEntry → Result MeteredCostComponent
try_from entry =
    if is_negative entry.const_term || is_negative entry.linear_term
    then fail context invalid_input
    else ok (record {
      const_term = pos_part entry.const_term;
      lin_term = scaled (pos_part entry.linear_term);
    })

-- The linear part of `evaluate`, which a zero coefficient skips.
unfoldable pub add_linear : MeteredCostComponent → ℕ → ℕ
unfolding is_zero unscale scaled_mul
add_linear model input =
    if is_zero model.lin_term
    then model.const_term
    else saturating_add u64_max model.const_term (unscale (scaled_mul model.lin_term input))

-- `MeteredCostComponent::evaluate`
unfoldable pub evaluate : MeteredCostComponent → Option ℕ → Result ℕ
unfolding add_linear
evaluate model (some input) = ok (add_linear model input)
evaluate model none = ok model.const_term
