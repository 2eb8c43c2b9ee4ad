-- ===== src/StellarAsset/Allowance.antt =====
-- soroban-env-host/src/builtin_contracts/stellar_asset_contract/allowance.rs: what an owner allows a
-- spender to spend, up to a ledger.
use rs_stellar_contract_env.Prelude.{
  ℕ, Option, none, some, ◌&&◌, ltb, if◌then◌else◌, saturating_sub, saturating_add, u32_max,
}
use rs_stellar_contract_env.Prelude.Int.{ℤ, pos, ltb_ℤ}
use rs_stellar_contract_env.Error.{Result, ok, err, bind, ok_or}
use rs_stellar_contract_env.Exec.{Exec, pure, lift, ◌>>=◌, ◌>>◌}
use rs_stellar_contract_env.Storage.Ttl.{LedgerInfo, max_live_until_ledger}
use rs_stellar_contract_env.StellarAsset.{
  allowance_error, overflow, contract_error, Address, AllowanceValue, DataKey, DataValue, temporary,
  as_allowance, checked_sub_ℤ, HostCalls, get_contract_data,
}

-- What an entry allows at a ledger: nothing after its last one.
unfoldable pub amount_at : ℕ → AllowanceValue → ℤ
amount_at ledger_seq val = if ltb val.live_until_ledger ledger_seq then pos 0 else val.amount

-- `live_until` is at most the greatest lifetime, and not past for an allowance that is not cleared.
unfoldable pub check_live_until : LedgerInfo → ℤ → ℕ → Result ℕ
check_live_until li amount live_until = bind (max_live_until_ledger li) λ greatest.
    if ltb greatest live_until
    then err (contract_error allowance_error)
    else if ltb_ℤ (pos 0) amount && ltb live_until li.sequence_number
    then err (contract_error allowance_error)
    else ok li.sequence_number

-- The entry to write, with the last ledger of the entry that was there; nothing to write where
-- nothing was and nothing is allowed.
unfoldable pub updated_allowance :
    ℤ → ℕ → Option DataValue → Result (Option (AllowanceValue × Option ℕ))
updated_allowance amount live_until none =
    if ltb_ℤ (pos 0) amount
    then ok (some (record { amount = amount; live_until_ledger = live_until }, none))
    else ok none
updated_allowance amount live_until (some raw) = bind (as_allowance raw) λ old.
    ok (
      some (record { amount = amount; live_until_ledger = live_until }, some old.live_until_ledger))

abbrev pub unwrap_or_zero : Option ℕ → ℕ
unwrap_or_zero none = 0
unwrap_or_zero (some n) = n

module _ {S : Type 0} (e : HostCalls S) where
  abbrev pub allowed_now : Option DataValue → Exec S ℤ
  allowed_now none = pure (pos 0)
  allowed_now (some raw) = do
    val ← lift (as_allowance raw)
    li ← e.ledger_info
    pure (amount_at li.sequence_number val)

  unfoldable pub read_allowance : Address → Address → Exec S ℤ
  read_allowance from spender = do
    found ← e.try_get_contract_data (DataKey.allowance from spender) temporary
    allowed_now found

  abbrev pub put_allowance :
      DataKey → ℕ → ℕ → Option (AllowanceValue × Option ℕ) → Exec S (Unit {0})
  put_allowance key ledger_seq live_until none = pure tt
  put_allowance key ledger_seq live_until (some written) = do
    e.put_contract_data key (DataValue.allowance written.0) temporary
    let live_for = saturating_add u32_max (saturating_sub live_until ledger_seq) 1
    if ltb_ℤ (pos 0) written.0.amount && ltb (unwrap_or_zero written.1) live_until
        then e.extend_contract_data_ttl key temporary live_for live_for
        else pure tt

  unfoldable pub write_allowance : Address → Address → ℤ → ℕ → Exec S (Unit {0})
  write_allowance from spender amount live_until = do
    li ← e.ledger_info
    ledger_seq ← lift (check_live_until li amount live_until)
    found ← e.try_get_contract_data (DataKey.allowance from spender) temporary
    updated ← lift (updated_allowance amount live_until found)
    put_allowance (DataKey.allowance from spender) ledger_seq live_until updated

  unfoldable pub write_allowance_amount : Address → Address → ℤ → Exec S (Unit {0})
  write_allowance_amount from spender amount = do
    key_from ← e.clone_address from
    key_spender ← e.clone_address spender
    raw ← get_contract_data e (DataKey.allowance key_from key_spender) temporary
    held ← lift (as_allowance raw)
    write_allowance from spender amount held.live_until_ledger

  unfoldable pub spend_from : Address → Address → ℤ → ℤ → Exec S (Unit {0})
  spend_from from spender amount held =
      if ltb_ℤ held amount
      then lift (err (contract_error allowance_error))
      else if ltb_ℤ (pos 0) amount
      then (do
        new_allowance ← lift (ok_or (checked_sub_ℤ held amount) (contract_error overflow))
        write_allowance_amount from spender new_allowance)
      else pure tt

  unfoldable pub spend_allowance : Address → Address → ℤ → Exec S (Unit {0})
  spend_allowance from spender amount = do
    from_read ← e.clone_address from
    spender_read ← e.clone_address spender
    held ← read_allowance from_read spender_read
    spend_from from spender amount held
