-- ===== src/FeeConfig.antt =====
-- soroban-env-host/src/fees.rs: the constants, the resources of a transaction and the rates of the
-- network.
use rs_stellar_contract_env.Prelude.{ℕ, Bool}
use rs_stellar_contract_env.Prelude.Int.{ℤ, pos}

-- `TX_BASE_RESULT_SIZE`
abbrev pub tx_base_result_size : ℕ
tx_base_result_size = 300

-- `TTL_ENTRY_SIZE`
abbrev pub ttl_entry_size : ℕ
ttl_entry_size = 48

-- `INSTRUCTIONS_INCREMENT`
abbrev pub instructions_increment : ℤ
instructions_increment = pos 10000

-- `DATA_SIZE_1KB_INCREMENT`
abbrev pub data_size_1kb_increment : ℤ
data_size_1kb_increment = pos 1024

pub record TransactionResources : Type 0 where
  pub instructions : ℕ
  pub read_entries : ℕ
  pub write_entries : ℕ
  pub read_bytes : ℕ
  pub write_bytes : ℕ
  pub contract_events_size_bytes : ℕ
  pub transaction_size_bytes : ℕ

pub record FeeConfiguration : Type 0 where
  pub fee_per_instruction_increment : ℤ
  pub fee_per_read_entry : ℤ
  pub fee_per_write_entry : ℤ
  pub fee_per_read_1kb : ℤ
  pub fee_per_write_1kb : ℤ
  pub fee_per_historical_1kb : ℤ
  pub fee_per_contract_event_1kb : ℤ
  pub fee_per_transaction_size_1kb : ℤ

pub record LedgerEntryRentChange : Type 0 where
  pub is_persistent : Bool
  pub old_size_bytes : ℕ
  pub new_size_bytes : ℕ
  pub old_live_until_ledger : ℕ
  pub new_live_until_ledger : ℕ

pub record RentFeeConfiguration : Type 0 where
  pub fee_per_write_1kb : ℤ
  pub fee_per_write_entry : ℤ
  pub persistent_rent_rate_denominator : ℤ
  pub temporary_rent_rate_denominator : ℤ

pub record WriteFeeConfiguration : Type 0 where
  pub bucket_list_target_size_bytes : ℤ
  pub write_fee_1kb_bucket_list_low : ℤ
  pub write_fee_1kb_bucket_list_high : ℤ
  pub bucket_list_write_fee_growth_factor : ℕ
