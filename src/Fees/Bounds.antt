-- ===== src/Fees/Bounds.antt =====
-- The range of the fees of soroban-env-host/src/fees.rs, and the fee of a resource.
use native.Mathlib.Nat.{div-le_of_le-mul, div-eq_of_lt, lt-div-mul-add, div-mul-le_self}
use rs_stellar_contract_env.Prelude.{ℕ, zero, suc, ◌+◌, ◌-◌, ◌*◌, ◌/◌, ◌≤◌, ◌<◌, ◌≡◌, arith, min}
use rs_stellar_contract_env.Prelude.Int.{
  ℤ, pos, negsuc, i64_max, saturating_add_ℤ, saturating_mul_ℤ,
}
use rs_stellar_contract_env.Fees.{compute_fee_per_increment}

-- A nonnegative `i64`.
abbrev pub IsFee : ℤ → Type 0
IsFee (pos n) = n ≤ i64_max
IsFee (negsuc n) = ⊥

-- A positive `i64`.
abbrev pub IsPositive : ℤ → Type 0
IsPositive (pos n) = (0 < n) × (n ≤ i64_max)
IsPositive (negsuc n) = ⊥

-- `num_integer::div_ceil` on a nonnegative numerator and a positive divisor: the quotient, rounded
-- up.
pub record IsDivCeil (div_ceil : ℤ → ℤ → ℤ) : Type 0 where
  pub rounds_up : (n d : ℕ) → 0 < d → div_ceil (pos n) (pos d) ≡ pos ((n + d - 1) / d)

pub add-IsFee : (a b : ℤ) → IsFee a → IsFee b → IsFee (saturating_add_ℤ i64_max a b)
unfolding saturating_add_ℤ
add-IsFee (pos m) (pos n) h k = ground arith
add-IsFee (pos m) (negsuc n) h k = absurd k
add-IsFee (negsuc m) b h k = absurd h

pub mul-IsFee : (a b : ℤ) → IsFee a → IsFee b → IsFee (saturating_mul_ℤ i64_max a b)
unfolding saturating_mul_ℤ
mul-IsFee (pos m) (pos n) h k = ground arith
mul-IsFee (pos m) (negsuc n) h k = absurd k
mul-IsFee (negsuc m) b h k = absurd h

pub scale-IsFee : (a : ℤ) (n : ℕ) → IsFee a → IsFee (saturating_mul_ℤ i64_max a (pos n))
unfolding saturating_mul_ℤ
scale-IsFee (pos m) n h = ground arith
scale-IsFee (negsuc m) n h = absurd h

pub amount-IsFee : (n : ℕ) (a : ℤ) → IsFee a → IsFee (saturating_mul_ℤ i64_max (pos n) a)
unfolding saturating_mul_ℤ
amount-IsFee n (pos m) h = ground arith
amount-IsFee n (negsuc m) h = absurd h

pub saturating_product :
    (m n : ℕ) → saturating_mul_ℤ i64_max (pos m) (pos n) ≡ pos (min (m * n) i64_max)
unfolding saturating_mul_ℤ
saturating_product m n = ground arith

ceil_le : (n d : ℕ) → 0 < d → (n + d - 1) / d ≤ n
ceil_le zero d h = rw (div-eq_of_lt {n = 0 + d - 1} {m = d} (omega arith)) (omega arith)
ceil_le (suc n) d h = div-le_of_le-mul d (bound n d h)
  where
    bound : (n d : ℕ) → 0 < d → suc n + d - 1 ≤ d * suc n
    bound n (suc d) h = grind arith
    bound n zero h = absurd (omega arith)

module _ (div_ceil : ℤ → ℤ → ℤ) (ceil : IsDivCeil div_ceil) where
  pub div_ceil-IsFee : (a b : ℤ) → IsFee a → IsPositive b → IsFee (div_ceil a b)
  div_ceil-IsFee (pos n) (pos d) h k =
      rw (ceil.rounds_up n d k.0) (let c = ceil_le n d k.0 in omega arith)
  div_ceil-IsFee (pos n) (negsuc d) h k = absurd k
  div_ceil-IsFee (negsuc n) b h k = absurd h

  pub per_increment-IsFee :
      (n : ℕ) (rate increment : ℤ)
      → IsFee rate
      → IsPositive increment
      → IsFee (compute_fee_per_increment div_ceil n rate increment)
  unfolding compute_fee_per_increment
  per_increment-IsFee n rate increment h k = div_ceil-IsFee _ increment (amount-IsFee n rate h) k

  -- Where the product fits into an `i64`, the fee of a resource is the least number of fee units
  -- whose increments cover the product: at least the product, and less than one increment above it.
  pub compute_fee_per_increment_lem :
      (n rate increment : ℕ)
      → 0 < increment
      → n * rate ≤ i64_max
      → (fee : ℕ) × (compute_fee_per_increment div_ceil n (pos rate) (pos increment) ≡ pos fee)
        × (n * rate ≤ fee * increment)
        × (fee * increment < n * rate + increment)
  unfolding compute_fee_per_increment
  compute_fee_per_increment_lem n rate increment h fits =
      let m = n * rate + increment - 1 in
      (
        m / increment,
        rw (saturating_product n rate, below n rate fits, ceil.rounds_up (n * rate) increment h),
        (let l = lt-div-mul-add {a = m} {b = increment} h in omega arith),
        (let l = div-mul-le_self m increment in omega arith),
      )
    where
      below : (n rate : ℕ) → n * rate ≤ i64_max → min (n * rate) i64_max ≡ n * rate
      below n rate h = ground arith
