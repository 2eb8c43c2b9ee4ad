-- ===== src/Fees.antt =====
-- soroban-env-host/src/fees.rs: the resource fee of a transaction, the write fee and the rent.
-- `num_integer::div_ceil` is a parameter. The fees are `i64`.
pub mod Bounds
pub mod Transaction
pub mod Rent
pub mod Write
use rs_stellar_contract_env.Prelude.{
  ℕ, ◌==◌, ◌-◌, ◌*◌, ◌^◌, leb, Bool, true, false, ◌&&◌, Option, none, some, List, [], ◌∷◌,
  if◌then◌else◌, ltb, u32_max, saturating_add, saturating_sub, checked_sub,
}
use rs_stellar_contract_env.FeeConfig.{
  tx_base_result_size, ttl_entry_size, instructions_increment, data_size_1kb_increment,
  TransactionResources, FeeConfiguration, WriteFeeConfiguration, LedgerEntryRentChange,
  RentFeeConfiguration,
}
use rs_stellar_contract_env.Prelude.Int.{
  ℤ, pos, negsuc, ◌-ℤ◌, ltb_ℤ, min_ℤ, is_negative, i64_max, i128_max, saturating_add_ℤ,
  saturating_sub_ℤ, saturating_mul_ℤ,
}

-- `clamp_fee` of `i64` and of `i128`: a negative number is taken for an error.
abbrev pub clamp_fee_i64 : ℤ → ℤ
clamp_fee_i64 (pos n) = pos n
clamp_fee_i64 (negsuc n) = pos i64_max

abbrev pub clamp_fee_i128 : ℤ → ℤ
clamp_fee_i128 (pos n) = if leb n i64_max then pos n else pos i64_max
clamp_fee_i128 (negsuc n) = pos i64_max

-- The `i64` that a difference of two of them leaves in a build that does not check for overflow.
abbrev pub wrap_i64 : ℤ → ℤ
wrap_i64 (pos n) = if leb n i64_max then pos n else negsuc (2 ^ 64 - n - 1)
wrap_i64 (negsuc n) = if leb n i64_max then negsuc n else pos (2 ^ 64 - n - 1)

-- The variables of `compute_rent_fee`.
pub record RentTotals : Type 0 where
  pub fee : ℤ
  pub extended_entries : ℤ
  pub extended_entry_key_size_bytes : ℕ

unfoldable pub exclusive_ledger_diff : ℕ → ℕ → Option ℕ
exclusive_ledger_diff lo hi = checked_sub hi lo

unfoldable pub inclusive_ledger_diff : ℕ → ℕ → Option ℕ
unfolding exclusive_ledger_diff
inclusive_ledger_diff lo hi = elim (exclusive_ledger_diff lo hi) [
  | some diff ↦ some (saturating_add u32_max diff 1)
  | none ↦ none
]

unfoldable pub entry_is_new : LedgerEntryRentChange → Bool
entry_is_new e = (e.old_size_bytes == 0) && (e.old_live_until_ledger == 0)

unfoldable pub extension_ledgers : LedgerEntryRentChange → ℕ → Option ℕ
unfolding entry_is_new exclusive_ledger_diff
extension_ledgers e current_ledger =
    exclusive_ledger_diff
      (if entry_is_new e then saturating_sub current_ledger 1 else e.old_live_until_ledger)
      e.new_live_until_ledger

unfoldable pub prepaid_ledgers : LedgerEntryRentChange → ℕ → Option ℕ
unfolding entry_is_new inclusive_ledger_diff
prepaid_ledgers e current_ledger =
    if entry_is_new e then none else inclusive_ledger_diff current_ledger e.old_live_until_ledger

unfoldable pub size_increase : LedgerEntryRentChange → Option ℕ
size_increase e = checked_sub e.new_size_bytes e.old_size_bytes

module _ (div_ceil : ℤ → ℤ → ℤ) where
  unfoldable pub compute_fee_per_increment : ℕ → ℤ → ℤ → ℤ
  compute_fee_per_increment resource_value fee_rate increment =
      div_ceil (saturating_mul_ℤ i64_max (pos resource_value) fee_rate) increment

  unfoldable pub compute_transaction_resource_fee : TransactionResources → FeeConfiguration → ℤ × ℤ
  compute_transaction_resource_fee r c =
      let compute_fee =
        compute_fee_per_increment r.instructions c.fee_per_instruction_increment
          instructions_increment in
      let ledger_read_entry_fee =
        saturating_mul_ℤ i64_max c.fee_per_read_entry
          (pos (saturating_add u32_max r.read_entries r.write_entries)) in
      let ledger_write_entry_fee =
        saturating_mul_ℤ i64_max c.fee_per_write_entry (pos r.write_entries) in
      let ledger_read_bytes_fee =
        compute_fee_per_increment r.read_bytes c.fee_per_read_1kb data_size_1kb_increment in
      let ledger_write_bytes_fee =
        compute_fee_per_increment r.write_bytes c.fee_per_write_1kb data_size_1kb_increment in
      let historical_fee =
        compute_fee_per_increment
          (saturating_add u32_max r.transaction_size_bytes tx_base_result_size)
          c.fee_per_historical_1kb data_size_1kb_increment in
      let events_fee =
        compute_fee_per_increment r.contract_events_size_bytes c.fee_per_contract_event_1kb
          data_size_1kb_increment in
      let bandwidth_fee =
        compute_fee_per_increment r.transaction_size_bytes c.fee_per_transaction_size_1kb
          data_size_1kb_increment in
      let add = saturating_add_ℤ i64_max in
      (
        add
            (add
              (add
                (add (add (add compute_fee ledger_read_entry_fee) ledger_write_entry_fee)
                  ledger_read_bytes_fee)
                ledger_write_bytes_fee)
              historical_fee)
            bandwidth_fee,
        events_fee,
      )

  unfoldable pub rent_fee_for_size_and_ledgers : Bool → ℕ → ℕ → RentFeeConfiguration → ℤ
  rent_fee_for_size_and_ledgers is_persistent entry_size rent_ledgers c =
      let num =
        saturating_mul_ℤ i64_max (saturating_mul_ℤ i64_max (pos entry_size) c.fee_per_write_1kb)
          (pos rent_ledgers) in
      let storage_coef =
        if is_persistent
        then c.persistent_rent_rate_denominator
        else c.temporary_rent_rate_denominator in
      div_ceil num (saturating_mul_ℤ i64_max data_size_1kb_increment storage_coef)

  -- `fee.saturating_add(...)` for the ledgers that the entry newly lives.
  abbrev pub extension_fee : LedgerEntryRentChange → RentFeeConfiguration → Option ℕ → ℤ → ℤ
  extension_fee e c (some rent_ledgers) fee =
      saturating_add_ℤ i64_max fee
        (rent_fee_for_size_and_ledgers e.is_persistent e.new_size_bytes rent_ledgers c)
  extension_fee e c none fee = fee

  -- The same for the ledgers that were paid for at a lower size.
  abbrev pub top_up_fee : LedgerEntryRentChange → RentFeeConfiguration → Option ℕ → Option ℕ → ℤ → ℤ
  top_up_fee e c (some rent_ledgers) (some entry_size) fee =
      saturating_add_ℤ i64_max fee
        (rent_fee_for_size_and_ledgers e.is_persistent entry_size rent_ledgers c)
  top_up_fee e c _ _ fee = fee

  unfoldable pub rent_fee_per_entry_change : LedgerEntryRentChange → RentFeeConfiguration → ℕ → ℤ
  rent_fee_per_entry_change e c current_ledger =
      top_up_fee e c (prepaid_ledgers e current_ledger) (size_increase e)
        (extension_fee e c (extension_ledgers e current_ledger) (pos 0))

  -- What the loop over the changed entries keeps.
  unfoldable pub rent_step :
      LedgerEntryRentChange → RentFeeConfiguration → ℕ → RentTotals → RentTotals
  rent_step e c current_ledger_seq t =
      let fee = saturating_add_ℤ i64_max t.fee (rent_fee_per_entry_change e c current_ledger_seq) in
      if ltb e.old_live_until_ledger e.new_live_until_ledger
      then record {
        fee = fee;
        extended_entries = saturating_add_ℤ i64_max t.extended_entries (pos 1);
        extended_entry_key_size_bytes =
            saturating_add u32_max t.extended_entry_key_size_bytes ttl_entry_size;
      }
      else record t { fee = fee }

  unfoldable pub rent_loop :
      List LedgerEntryRentChange → RentFeeConfiguration → ℕ → RentTotals → RentTotals
  rent_loop [] c current_ledger_seq t = t
  rent_loop (e ∷ es) c current_ledger_seq t =
      rent_loop es c current_ledger_seq (rent_step e c current_ledger_seq t)

  -- The lifetimes themselves are written to the ledger as entries of a constant size.
  unfoldable pub compute_rent_fee : List LedgerEntryRentChange → RentFeeConfiguration → ℕ → ℤ
  compute_rent_fee changed_entries c current_ledger_seq =
      let t =
        rent_loop changed_entries c current_ledger_seq
          (record { fee = pos 0; extended_entries = pos 0; extended_entry_key_size_bytes = 0 }) in
      saturating_add_ℤ i64_max
        (saturating_add_ℤ i64_max t.fee
          (saturating_mul_ℤ i64_max c.fee_per_write_entry t.extended_entries))
        (compute_fee_per_increment t.extended_entry_key_size_bytes c.fee_per_write_1kb
          data_size_1kb_increment)

  -- The part of the write fee past the target size, which a `-` on `i64` measures.
  unfoldable pub post_target_fee : ℤ → ℤ → WriteFeeConfiguration → ℤ
  post_target_fee fee_rate_multiplier bucket_list_size_bytes c = clamp_fee_i128 (
      div_ceil
        (saturating_mul_ℤ i128_max
          (saturating_mul_ℤ i128_max fee_rate_multiplier
            (wrap_i64 (bucket_list_size_bytes -ℤ c.bucket_list_target_size_bytes)))
          (pos c.bucket_list_write_fee_growth_factor))
        c.bucket_list_target_size_bytes)

  unfoldable pub compute_write_fee_per_1kb : ℤ → WriteFeeConfiguration → ℤ
  unfolding ◌-ℤ◌
  compute_write_fee_per_1kb bucket_list_size_bytes c =
      let fee_rate_multiplier = clamp_fee_i64 (
        saturating_sub_ℤ i64_max c.write_fee_1kb_bucket_list_high
          c.write_fee_1kb_bucket_list_low) in
      let before = min_ℤ bucket_list_size_bytes c.bucket_list_target_size_bytes in
      let write_fee_per_1kb =
        saturating_add_ℤ i64_max
          (clamp_fee_i128 (
            div_ceil (saturating_mul_ℤ i128_max fee_rate_multiplier before)
              c.bucket_list_target_size_bytes))
          c.write_fee_1kb_bucket_list_low in
      if ltb_ℤ c.bucket_list_target_size_bytes bucket_list_size_bytes
      then saturating_add_ℤ i64_max write_fee_per_1kb
          (post_target_fee fee_rate_multiplier bucket_list_size_bytes c)
      else write_fee_per_1kb
