-- ===== src/Fees/Transaction.antt =====
-- The resource fee of a transaction.
use rs_stellar_contract_env.Prelude.{ℕ, arith}
use rs_stellar_contract_env.Prelude.Int.{ℤ}
use rs_stellar_contract_env.FeeConfig.{
  TransactionResources, FeeConfiguration, instructions_increment, data_size_1kb_increment,
}
use rs_stellar_contract_env.Fees.{compute_fee_per_increment, compute_transaction_resource_fee}
use rs_stellar_contract_env.Fees.Bounds.{
  IsFee, IsDivCeil, add-IsFee, scale-IsFee, per_increment-IsFee,
}

-- No rate is negative.
pub record HasFees (c : FeeConfiguration) : Type 0 where
  pub fee_per_instruction_increment : IsFee c.fee_per_instruction_increment
  pub fee_per_read_entry : IsFee c.fee_per_read_entry
  pub fee_per_write_entry : IsFee c.fee_per_write_entry
  pub fee_per_read_1kb : IsFee c.fee_per_read_1kb
  pub fee_per_write_1kb : IsFee c.fee_per_write_1kb
  pub fee_per_historical_1kb : IsFee c.fee_per_historical_1kb
  pub fee_per_contract_event_1kb : IsFee c.fee_per_contract_event_1kb
  pub fee_per_transaction_size_1kb : IsFee c.fee_per_transaction_size_1kb

per_kb-IsFee :
    (div_ceil : ℤ → ℤ → ℤ) (ceil : IsDivCeil div_ceil) (n : ℕ) (rate : ℤ)
    → IsFee rate
    → IsFee (compute_fee_per_increment div_ceil n rate data_size_1kb_increment)
per_kb-IsFee div_ceil ceil n rate h =
    per_increment-IsFee div_ceil ceil n rate data_size_1kb_increment h (omega arith, omega arith)

-- Where `div_ceil` rounds up and no rate of the network is negative, both parts of the resource fee
-- of a transaction, whatever its resources, are nonnegative `i64` numbers.
pub compute_transaction_resource_fee-IsFee :
    (div_ceil : ℤ → ℤ → ℤ) (r : TransactionResources) (c : FeeConfiguration)
    → IsDivCeil div_ceil
    → HasFees c
    → let fees = compute_transaction_resource_fee div_ceil r c in IsFee fees.0 × IsFee fees.1
unfolding compute_transaction_resource_fee
compute_transaction_resource_fee-IsFee div_ceil r c ceil h = (
  add-IsFee _ _
      (add-IsFee _ _
        (add-IsFee _ _
          (add-IsFee _ _
            (add-IsFee _ _
              (add-IsFee _ _
                (per_increment-IsFee div_ceil ceil _ _ instructions_increment
                  h.fee_per_instruction_increment (omega arith, omega arith))
                (scale-IsFee _ _ h.fee_per_read_entry))
              (scale-IsFee _ _ h.fee_per_write_entry))
            (per_kb-IsFee div_ceil ceil _ _ h.fee_per_read_1kb))
          (per_kb-IsFee div_ceil ceil _ _ h.fee_per_write_1kb))
        (per_kb-IsFee div_ceil ceil _ _ h.fee_per_historical_1kb))
      (per_kb-IsFee div_ceil ceil _ _ h.fee_per_transaction_size_1kb),
  per_kb-IsFee div_ceil ceil _ _ h.fee_per_contract_event_1kb,
)
