-- ===== src/Fees/Write.antt =====
-- The write fee up to the target size of the bucket list.
use native.Mathlib.Nat.{div-lt_iff_lt-mul, div-eq_of_lt-le}
use rs_stellar_contract_env.Prelude.{
  ℕ, suc, ◌+◌, ◌-◌, ◌*◌, ◌/◌, ◌≤◌, ◌<◌, ◌≡◌, ap, ◌∙◌, false, arith,
}
use rs_stellar_contract_env.Prelude.Int.{
  ℤ, pos, i64_max, i128_max, saturating_add_ℤ, saturating_sub_ℤ, saturating_mul_ℤ, ltb_ℤ,
}
use rs_stellar_contract_env.Fees.{compute_write_fee_per_1kb, clamp_fee_i64, clamp_fee_i128}
use rs_stellar_contract_env.Fees.Bounds.{IsDivCeil}

multiplier :
    (low high : ℕ)
    → low ≤ high
    → high ≤ i64_max
    → clamp_fee_i64 (saturating_sub_ℤ i64_max (pos high) (pos low)) ≡ pos (high - low)
unfolding saturating_sub_ℤ
multiplier low high h k = ground arith

product_le : (a b c d : ℕ) → a ≤ c → b ≤ d → a * b ≤ c * d
product_le a b c d h k = grind arith

wide_product :
    (a b : ℕ) → a ≤ i64_max → b ≤ i64_max → saturating_mul_ℤ i128_max (pos a) (pos b) ≡ pos (a * b)
unfolding saturating_mul_ℤ
wide_product a b h k = let p = product_le a b i64_max i64_max h k in ground arith

sum_fits : (a b : ℕ) → a + b ≤ i64_max → saturating_add_ℤ i64_max (pos a) (pos b) ≡ pos (a + b)
unfolding saturating_add_ℤ
sum_fits a b h = ground arith

clamp_fits : (n : ℕ) → n ≤ i64_max → clamp_fee_i128 (pos n) ≡ pos n
clamp_fits n h = ground arith

not_past : (s t : ℕ) → s ≤ t → ltb_ℤ (pos t) (pos s) ≡ false
not_past s t h = ground arith

-- A share of at most the whole, rounded up, is at most the whole.
share_le : (d s t : ℕ) → 0 < t → s ≤ t → (d * s + t - 1) / t ≤ d
share_le d s t h k =
    let l = (div-lt_iff_lt-mul {k = t} {x = d * s + t - 1} {y = suc d} h).1 (below d s t h k) in
    omega arith
  where
    below : (d s t : ℕ) → 0 < t → s ≤ t → d * s + t - 1 < suc d * t
    below d s t h k = let p = product_le d s d t (omega arith) k in grind arith

-- Up to the target size of the bucket list, where the fee at the target is an `i64` that is at least
-- the fee of an empty list, the write fee is the latter plus the share of the difference that the
-- size has of the target, rounded up.
pub compute_write_fee_per_1kb_lem :
    (div_ceil : ℤ → ℤ → ℤ) (size target low high growth : ℕ)
    → IsDivCeil div_ceil
    → 0 < target
    → target ≤ i64_max
    → size ≤ target
    → low ≤ high
    → high ≤ i64_max
    → compute_write_fee_per_1kb div_ceil (pos size) (record {
      bucket_list_target_size_bytes = pos target;
      write_fee_1kb_bucket_list_low = pos low;
      write_fee_1kb_bucket_list_high = pos high;
      bucket_list_write_fee_growth_factor = growth;
    })
      ≡ pos (((high - low) * size + target - 1) / target + low)
unfolding compute_write_fee_per_1kb
compute_write_fee_per_1kb_lem div_ceil size target low high growth ceil t fits s l h =
    let share = share_le (high - low) size target t s in
    rw
      (
        not_past size target s,
        multiplier low high l h,
        wide_product (high - low) size (omega arith) (omega arith),
      )
      (rw (ceil.rounds_up ((high - low) * size) target t) (
        rw (clamp_fits (((high - low) * size + target - 1) / target) (omega arith))
          (sum_fits (((high - low) * size + target - 1) / target) low (omega arith))))

whole_share : (d t : ℕ) → 0 < t → (d * t + t - 1) / t ≡ d
whole_share d t h = div-eq_of_lt-le t (omega arith) (grind arith)

-- At the target size the write fee is the one configured for it, where that is an `i64` and at least
-- the fee of an empty list.
pub compute_write_fee_per_1kb_at_target :
    (div_ceil : ℤ → ℤ → ℤ) (target low high growth : ℕ)
    → IsDivCeil div_ceil
    → 0 < target
    → target ≤ i64_max
    → low ≤ high
    → high ≤ i64_max
    → compute_write_fee_per_1kb div_ceil (pos target) (record {
      bucket_list_target_size_bytes = pos target;
      write_fee_1kb_bucket_list_low = pos low;
      write_fee_1kb_bucket_list_high = pos high;
      bucket_list_write_fee_growth_factor = growth;
    })
      ≡ pos high
compute_write_fee_per_1kb_at_target div_ceil target low high growth ceil t fits l h =
    compute_write_fee_per_1kb_lem div_ceil target target low high growth ceil t fits (omega arith) l
      h
    ∙ ap pos (let w = whole_share (high - low) target t in omega arith)
