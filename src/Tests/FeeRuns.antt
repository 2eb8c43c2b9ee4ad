-- ===== src/Tests/FeeRuns.antt =====
-- The fees' theorems at the rates of a small network.
use rs_stellar_contract_env.Prelude.{
  ℕ, zero, suc, ◌+◌, ◌-◌, ◌*◌, ◌/◌, ◌≡◌, refl, true, [], ◌∷◌, arith,
}
use rs_stellar_contract_env.Prelude.Int.{ℤ, pos, negsuc}
use rs_stellar_contract_env.FeeConfig.{
  TransactionResources, FeeConfiguration, LedgerEntryRentChange, RentFeeConfiguration,
}
use rs_stellar_contract_env.Fees.{
  compute_transaction_resource_fee, entry_is_new, rent_fee_per_entry_change, compute_rent_fee,
  compute_write_fee_per_1kb,
}
use rs_stellar_contract_env.Fees.Bounds.{IsFee, IsDivCeil}
use rs_stellar_contract_env.Fees.Transaction.{HasFees, compute_transaction_resource_fee-IsFee}
use rs_stellar_contract_env.Fees.Rent.{
  HasRentFees, compute_rent_fee-IsFee, rent_fee_per_entry_change_unchanged,
}
use rs_stellar_contract_env.Fees.Write.{compute_write_fee_per_1kb_lem}

-- The negative of a number.
abbrev minus : ℕ → ℤ
minus zero = pos 0
minus (suc n) = negsuc n

-- Division rounded up, by the signs; a division by 0 is given as 0 here.
abbrev ceiling : ℤ → ℤ → ℤ
ceiling (pos n) (pos d) = pos ((n + d - 1) / d)
ceiling (negsuc n) (pos d) = minus (suc n / d)
ceiling (pos n) (negsuc d) = minus (n / suc d)
ceiling (negsuc n) (negsuc d) = pos ((suc n + d) / suc d)

ceiling-IsDivCeil : IsDivCeil ceiling
ceiling-IsDivCeil = record { rounds_up = λ n d h. refl }

abbrev resources : TransactionResources
resources = record {
  instructions = 5_000_000;
  read_entries = 3;
  write_entries = 2;
  read_bytes = 4000;
  write_bytes = 1500;
  contract_events_size_bytes = 300;
  transaction_size_bytes = 900;
}

abbrev rates : FeeConfiguration
rates = record {
  fee_per_instruction_increment = pos 25;
  fee_per_read_entry = pos 6250;
  fee_per_write_entry = pos 10_000;
  fee_per_read_1kb = pos 1786;
  fee_per_write_1kb = pos 11_800;
  fee_per_historical_1kb = pos 16_235;
  fee_per_contract_event_1kb = pos 10_000;
  fee_per_transaction_size_1kb = pos 1624;
}

rates-HasFees : HasFees rates
rates-HasFees = record {
  fee_per_instruction_increment = omega arith;
  fee_per_read_entry = omega arith;
  fee_per_write_entry = omega arith;
  fee_per_read_1kb = omega arith;
  fee_per_write_1kb = omega arith;
  fee_per_historical_1kb = omega arith;
  fee_per_contract_event_1kb = omega arith;
  fee_per_transaction_size_1kb = omega arith;
}

abbrev rent_rates : RentFeeConfiguration
rent_rates = record {
  fee_per_write_1kb = pos 11_800;
  fee_per_write_entry = pos 10_000;
  persistent_rent_rate_denominator = pos 1402;
  temporary_rent_rate_denominator = pos 2804;
}

rent_rates-HasRentFees : HasRentFees rent_rates
rent_rates-HasRentFees = record {
  fee_per_write_1kb = omega arith;
  fee_per_write_entry = omega arith;
  persistent_rent_rate_denominator = (omega arith, omega arith);
  temporary_rent_rate_denominator = (omega arith, omega arith);
}

abbrev kept : LedgerEntryRentChange
kept = record {
  is_persistent = true;
  old_size_bytes = 200;
  new_size_bytes = 150;
  old_live_until_ledger = 5000;
  new_live_until_ledger = 5000;
}

compute_transaction_resource_fee-IsFee_example :
    let fees = compute_transaction_resource_fee ceiling resources rates in
    IsFee fees.0 × IsFee fees.1
compute_transaction_resource_fee-IsFee_example =
    compute_transaction_resource_fee-IsFee ceiling resources rates ceiling-IsDivCeil rates-HasFees

compute_rent_fee-IsFee_example : IsFee (compute_rent_fee ceiling (kept ∷ []) rent_rates 4500)
compute_rent_fee-IsFee_example =
    compute_rent_fee-IsFee ceiling (kept ∷ []) rent_rates 4500 ceiling-IsDivCeil
      rent_rates-HasRentFees

rent_fee_per_entry_change_unchanged_example :
    rent_fee_per_entry_change ceiling kept rent_rates 4500 ≡ pos 0
unfolding entry_is_new
rent_fee_per_entry_change_unchanged_example =
    rent_fee_per_entry_change_unchanged ceiling kept rent_rates 4500 ceiling-IsDivCeil
      rent_rates-HasRentFees refl (omega arith) (omega arith)

compute_write_fee_per_1kb_lem_example :
    compute_write_fee_per_1kb ceiling (pos 250) (record {
      bucket_list_target_size_bytes = pos 1000;
      write_fee_1kb_bucket_list_low = pos 100;
      write_fee_1kb_bucket_list_high = pos 500;
      bucket_list_write_fee_growth_factor = 50;
    })
    ≡ pos (((500 - 100) * 250 + 1000 - 1) / 1000 + 100)
compute_write_fee_per_1kb_lem_example =
    compute_write_fee_per_1kb_lem ceiling 250 1000 100 500 50 ceiling-IsDivCeil (omega arith)
      (omega arith) (omega arith) (omega arith) (omega arith)
