-- ===== src/Fees/Rent.antt =====
-- The rent of changed entries.
use native.Mathlib.Nat.{div-eq_of_lt}
use rs_stellar_contract_env.Prelude.{
  ℕ, ◌+◌, ◌-◌, ◌≤◌, ◌≡◌, refl, ap, ◌∙◌, Bool, true, false, Option, none, some, List, [], ◌∷◌, arith,
  ltb, Bool-cases, inl, inr, if◌then◌else◌,
}
use rs_stellar_contract_env.Prelude.Int.{
  ℤ, pos, negsuc, i64_max, saturating_add_ℤ, saturating_mul_ℤ,
}
use rs_stellar_contract_env.FeeConfig.{
  LedgerEntryRentChange, RentFeeConfiguration, data_size_1kb_increment,
}
use rs_stellar_contract_env.Fees.{
  RentTotals, rent_fee_for_size_and_ledgers, rent_fee_per_entry_change, extension_fee, top_up_fee,
  rent_step, rent_loop, compute_rent_fee, extension_ledgers, prepaid_ledgers, size_increase,
  exclusive_ledger_diff, entry_is_new,
}
use rs_stellar_contract_env.Fees.Bounds.{
  IsFee, IsPositive, IsDivCeil, add-IsFee, mul-IsFee, scale-IsFee, amount-IsFee, div_ceil-IsFee,
  per_increment-IsFee,
}

-- The rates of the network: no fee is negative, and the denominators are positive.
pub record HasRentFees (c : RentFeeConfiguration) : Type 0 where
  pub fee_per_write_1kb : IsFee c.fee_per_write_1kb
  pub fee_per_write_entry : IsFee c.fee_per_write_entry
  pub persistent_rent_rate_denominator : IsPositive c.persistent_rent_rate_denominator
  pub temporary_rent_rate_denominator : IsPositive c.temporary_rent_rate_denominator

denominator-IsPositive :
    (d : ℤ) → IsPositive d → IsPositive (saturating_mul_ℤ i64_max data_size_1kb_increment d)
unfolding saturating_mul_ℤ
denominator-IsPositive (pos d) h = ground arith
denominator-IsPositive (negsuc d) h = absurd h

coefficient-IsPositive :
    (is_persistent : Bool) (c : RentFeeConfiguration)
    → HasRentFees c
    → IsPositive (
        if is_persistent
        then c.persistent_rent_rate_denominator
        else c.temporary_rent_rate_denominator)
coefficient-IsPositive true c h = h.persistent_rent_rate_denominator
coefficient-IsPositive false c h = h.temporary_rent_rate_denominator

module _ (div_ceil : ℤ → ℤ → ℤ) (ceil : IsDivCeil div_ceil) (c : RentFeeConfiguration)
    (h : HasRentFees c) where
  size_and_ledgers-IsFee :
      (is_persistent : Bool) (size ledgers : ℕ)
      → IsFee (rent_fee_for_size_and_ledgers div_ceil is_persistent size ledgers c)
  unfolding rent_fee_for_size_and_ledgers
  size_and_ledgers-IsFee p size ledgers =
      div_ceil-IsFee div_ceil ceil _ _
        (scale-IsFee _ ledgers (amount-IsFee size c.fee_per_write_1kb h.fee_per_write_1kb))
        (denominator-IsPositive _ (coefficient-IsPositive p c h))

  extension_fee-IsFee :
      (e : LedgerEntryRentChange) (o : Option ℕ) (fee : ℤ)
      → IsFee fee
      → IsFee (extension_fee div_ceil e c o fee)
  extension_fee-IsFee e (some n) fee k =
      add-IsFee fee _ k (size_and_ledgers-IsFee e.is_persistent e.new_size_bytes n)
  extension_fee-IsFee e none fee k = k

  top_up_fee-IsFee :
      (e : LedgerEntryRentChange) (o s : Option ℕ) (fee : ℤ)
      → IsFee fee
      → IsFee (top_up_fee div_ceil e c o s fee)
  top_up_fee-IsFee e (some n) (some size) fee k =
      add-IsFee fee _ k (size_and_ledgers-IsFee e.is_persistent size n)
  top_up_fee-IsFee e (some n) none fee k = k
  top_up_fee-IsFee e none s fee k = k

  entry_change-IsFee :
      (e : LedgerEntryRentChange) (n : ℕ) → IsFee (rent_fee_per_entry_change div_ceil e c n)
  unfolding rent_fee_per_entry_change
  entry_change-IsFee e n =
      top_up_fee-IsFee e (prepaid_ledgers e n) (size_increase e) _
        (extension_fee-IsFee e (extension_ledgers e n) (pos 0) (omega arith))

  abbrev AreFees : RentTotals → Type 0
  AreFees t = IsFee t.fee × IsFee t.extended_entries

  step-AreFees :
      (e : LedgerEntryRentChange) (n : ℕ) (t : RentTotals)
      → AreFees t
      → AreFees (rent_step div_ceil e c n t)
  unfolding rent_step
  step-AreFees e n t k =
      let fee = add-IsFee t.fee _ k.0 (entry_change-IsFee e n) in
      elim (Bool-cases (ltb e.old_live_until_ledger e.new_live_until_ledger)) [
        | inl x ↦ simp x (fee, add-IsFee t.extended_entries (pos 1) k.1 (omega arith))
        | inr x ↦ simp x (fee, k.1)
      ]

  loop-AreFees :
      (es : List LedgerEntryRentChange) (n : ℕ) (t : RentTotals)
      → AreFees t
      → AreFees (rent_loop div_ceil es c n t)
  unfolding rent_loop
  loop-AreFees [] n t k = k
  loop-AreFees (e ∷ es) n t k =
      loop-AreFees es n (rent_step div_ceil e c n t) (step-AreFees e n t k)

-- Where `div_ceil` rounds up, no fee of the network is negative and its denominators are positive,
-- the rent of any changes is a nonnegative `i64` number.
pub compute_rent_fee-IsFee :
    (div_ceil : ℤ → ℤ → ℤ) (es : List LedgerEntryRentChange) (c : RentFeeConfiguration) (n : ℕ)
    → IsDivCeil div_ceil
    → HasRentFees c
    → IsFee (compute_rent_fee div_ceil es c n)
unfolding compute_rent_fee
compute_rent_fee-IsFee div_ceil es c n ceil h =
    let t =
      loop-AreFees div_ceil ceil c h es n
        (record { fee = pos 0; extended_entries = pos 0; extended_entry_key_size_bytes = 0 })
        (omega arith, omega arith) in
    add-IsFee _ _ (add-IsFee _ _ t.0 (mul-IsFee _ _ h.fee_per_write_entry t.1)) (
      per_increment-IsFee div_ceil ceil _ _ data_size_1kb_increment h.fee_per_write_1kb
        (omega arith, omega arith))

ceil_zero :
    (div_ceil : ℤ → ℤ → ℤ) (d : ℤ) → IsDivCeil div_ceil → IsPositive d → div_ceil (pos 0) d ≡ pos 0
ceil_zero div_ceil (pos d) ceil k =
    ceil.rounds_up 0 d k.0
    ∙ ap pos (div-eq_of_lt {n = 0 + d - 1} {m = d} (let p = k.0 in omega arith))
ceil_zero div_ceil (negsuc d) ceil k = absurd k

no_ledgers : (a : ℤ) → IsFee a → saturating_mul_ℤ i64_max a (pos 0) ≡ pos 0
unfolding saturating_mul_ℤ
no_ledgers (pos m) h = ground arith
no_ledgers (negsuc m) h = absurd h

no_bytes :
    (n : ℕ) (a : ℤ)
    → IsFee a
    → saturating_mul_ℤ i64_max (saturating_mul_ℤ i64_max (pos 0) a) (pos n) ≡ pos 0
unfolding saturating_mul_ℤ
no_bytes n (pos m) h = ground arith
no_bytes n (negsuc m) h = absurd h

module _ (div_ceil : ℤ → ℤ → ℤ) (ceil : IsDivCeil div_ceil) (c : RentFeeConfiguration)
    (h : HasRentFees c) where
  no_ledgers_fee : (p : Bool) (size : ℕ) → rent_fee_for_size_and_ledgers div_ceil p size 0 c ≡ pos 0
  unfolding rent_fee_for_size_and_ledgers
  no_ledgers_fee p size =
      rw (no_ledgers _ (amount-IsFee size c.fee_per_write_1kb h.fee_per_write_1kb))
        (ceil_zero div_ceil _ ceil (denominator-IsPositive _ (coefficient-IsPositive p c h)))

  no_bytes_fee :
      (p : Bool) (ledgers : ℕ) → rent_fee_for_size_and_ledgers div_ceil p 0 ledgers c ≡ pos 0
  unfolding rent_fee_for_size_and_ledgers
  no_bytes_fee p ledgers =
      rw (no_bytes ledgers c.fee_per_write_1kb h.fee_per_write_1kb)
        (ceil_zero div_ceil _ ceil (denominator-IsPositive _ (coefficient-IsPositive p c h)))

  no_extension :
      (e : LedgerEntryRentChange) (o : Option ℕ)
      → ((n : ℕ) → o ≡ some n → n ≡ 0)
      → extension_fee div_ceil e c o (pos 0) ≡ pos 0
  unfolding saturating_add_ℤ
  no_extension e (some n) k = rw (k n refl, no_ledgers_fee e.is_persistent e.new_size_bytes)
  no_extension e none k = refl

  no_top_up :
      (e : LedgerEntryRentChange) (o s : Option ℕ)
      → ((n : ℕ) → s ≡ some n → n ≡ 0)
      → top_up_fee div_ceil e c o s (pos 0) ≡ pos 0
  unfolding saturating_add_ℤ
  no_top_up e (some n) (some size) k = rw (k size refl, no_bytes_fee e.is_persistent n)
  no_top_up e (some n) none k = refl
  no_top_up e none s k = refl

-- Where `div_ceil` rounds up, no fee of the network is negative and its denominators are positive,
-- an entry that is not new, lives no longer than before and has not grown pays no rent.
pub rent_fee_per_entry_change_unchanged :
    (div_ceil : ℤ → ℤ → ℤ) (e : LedgerEntryRentChange) (c : RentFeeConfiguration)
    (current_ledger : ℕ)
    → IsDivCeil div_ceil
    → HasRentFees c
    → entry_is_new e ≡ false
    → e.new_live_until_ledger ≤ e.old_live_until_ledger
    → e.new_size_bytes ≤ e.old_size_bytes
    → rent_fee_per_entry_change div_ceil e c current_ledger ≡ pos 0
unfolding rent_fee_per_entry_change extension_ledgers size_increase exclusive_ledger_diff
rent_fee_per_entry_change_unchanged div_ceil e c current_ledger ceil h old live size =
    rw (no_extension div_ceil ceil c h e (extension_ledgers e current_ledger) (λ n k. ground arith))
      (no_top_up div_ceil ceil c h e (prepaid_ledgers e current_ledger) (size_increase e)
        (λ n k. ground arith))
