-- ===== src/StellarAsset/Balance.antt =====
-- soroban-env-host/src/builtin_contracts/stellar_asset_contract/balance.rs: the balances of
-- addresses. Those of contracts are entries of contract data; those of accounts are calls of the
-- host.
use rs_stellar_contract_env.Prelude.{Bool, true, false, not, Option, none, some, leb, if◌then◌else◌}
use rs_stellar_contract_env.Prelude.Int.{ℤ, pos, negsuc, ltb_ℤ, ◌-ℤ◌, i64_max}
use rs_stellar_contract_env.Error.{Result, ok, err, bind, ok_or}
use rs_stellar_contract_env.Exec.{Exec, pure, lift, ◌>>=◌, ◌>>◌}
use rs_stellar_contract_env.StellarAsset.{
  operation_not_supported, overflow, balance_error, balance_deauthorized, contract_error, Address,
  account, contract_address, BalanceValue, DataKey, DataValue, persistent, as_balance,
  balance_extend_amount, balance_ttl_threshold, checked_add_ℤ, checked_sub_ℤ, HostCalls,
  required_flag, revocable_flag, clawback_enabled_flag,
}

-- `i64::try_from(amount)`
unfoldable pub to_i64 : ℤ → Result ℤ
to_i64 (pos n) = if leb n i64_max then ok (pos n) else err (contract_error overflow)
to_i64 (negsuc n) = if leb n i64_max then ok (negsuc n) else err (contract_error overflow)

abbrev pub enough : ℤ → ℤ → Result (Unit {0})
enough held amount = if ltb_ℤ held amount then err (contract_error balance_error) else ok tt

module _ {S : Type 0} (e : HostCalls S) where
  abbrev pub amount_of : DataKey → Option DataValue → Exec S ℤ
  amount_of key none = pure (pos 0)
  amount_of key (some raw) = do
    e.extend_contract_data_ttl key persistent balance_ttl_threshold balance_extend_amount
    held ← lift (as_balance raw)
    pure held.amount

  unfoldable pub read_balance : Address → Exec S ℤ
  read_balance (account id) = e.get_classic_balance id
  read_balance (contract_address id) = do
    found ← e.try_get_contract_data (DataKey.balance (contract_address id)) persistent
    amount_of (DataKey.balance (contract_address id)) found

  unfoldable pub write_contract_balance : Address → BalanceValue → Exec S (Unit {0})
  write_contract_balance addr held = do
    e.put_contract_data (DataKey.balance addr) (DataValue.balance held) persistent
    e.extend_contract_data_ttl (DataKey.balance addr) persistent balance_ttl_threshold
        balance_extend_amount

  abbrev pub is_asset_auth_required : Exec S Bool
  is_asset_auth_required = e.is_asset_issuer_flag_set required_flag

  abbrev pub is_asset_clawback_enabled : Exec S Bool
  is_asset_clawback_enabled = e.is_asset_issuer_flag_set clawback_enabled_flag

  abbrev pub is_asset_auth_revocable : Exec S Bool
  is_asset_auth_revocable = e.is_asset_issuer_flag_set revocable_flag

  abbrev pub authorized_by : Option DataValue → Exec S Bool
  authorized_by none = do required ← is_asset_auth_required; pure (not required)
  authorized_by (some raw) = do held ← lift (as_balance raw); pure held.authorized

  unfoldable pub is_authorized : Address → Exec S Bool
  is_authorized (account id) = e.is_account_authorized id
  is_authorized (contract_address id) = do
    found ← e.try_get_contract_data (DataKey.balance (contract_address id)) persistent
    authorized_by found

  -- The entry that is there, or an empty one with the given authorization.
  abbrev pub held_or_new : Bool → Option DataValue → Exec S BalanceValue
  held_or_new authorize none = do
    enabled ← is_asset_clawback_enabled
    pure (record { amount = pos 0; authorized = authorize; clawback = enabled })
  held_or_new authorize (some raw) = lift (as_balance raw)

  unfoldable pub credit : Address → ℤ → Exec S (Unit {0})
  credit (account id) amount = do small ← lift (to_i64 amount); e.transfer_classic_balance id small
  credit (contract_address id) amount = do
    key ← e.clone_address (contract_address id)
    found ← e.try_get_contract_data (DataKey.balance key) persistent
    held ← held_or_new true found
    new_balance ← lift (ok_or (checked_add_ℤ held.amount amount) (contract_error overflow))
    write_contract_balance (contract_address id) (record held { amount = new_balance })

  unfoldable pub receive_balance : Address → ℤ → Exec S (Unit {0})
  receive_balance addr amount = do
    checked ← e.clone_address addr
    authorized ← is_authorized checked
    if authorized then credit addr amount else lift (err (contract_error balance_deauthorized))

  abbrev pub debit : Address → ℤ → Option DataValue → Exec S (Unit {0})
  debit addr amount none =
      if ltb_ℤ (pos 0) amount then lift (err (contract_error balance_error)) else pure tt
  debit addr amount (some raw) = do
    held ← lift (as_balance raw)
    lift (enough held.amount amount)
    new_balance ← lift (ok_or (checked_sub_ℤ held.amount amount) (contract_error overflow))
    write_contract_balance addr (record held { amount = new_balance })

  unfoldable pub spend_balance_no_authorization_check : Address → ℤ → Exec S (Unit {0})
  spend_balance_no_authorization_check (account id) amount = do
    small ← lift (to_i64 amount)
    e.transfer_classic_balance id (pos 0 -ℤ small)
  spend_balance_no_authorization_check (contract_address id) amount = do
    key ← e.clone_address (contract_address id)
    found ← e.try_get_contract_data (DataKey.balance key) persistent
    debit (contract_address id) amount found

  unfoldable pub spend_balance : Address → ℤ → Exec S (Unit {0})
  spend_balance addr amount = do
    checked ← e.clone_address addr
    authorized ← is_authorized checked
    if authorized
        then spend_balance_no_authorization_check addr amount
        else lift (err (contract_error balance_deauthorized))

  abbrev pub check_revocable : Bool → Exec S (Unit {0})
  check_revocable true = pure tt
  check_revocable false = do
    revocable ← is_asset_auth_revocable
    if revocable then pure tt else lift (err (contract_error operation_not_supported))

  abbrev pub put_authorization : Address → Bool → Exec S (Unit {0})
  put_authorization (account id) authorize = e.set_authorization id authorize
  put_authorization (contract_address id) authorize = do
    key ← e.clone_address (contract_address id)
    found ← e.try_get_contract_data (DataKey.balance key) persistent
    held ← held_or_new authorize found
    write_contract_balance (contract_address id) (record held { authorized = authorize })

  unfoldable pub write_authorization : Address → Bool → Exec S (Unit {0})
  write_authorization addr authorize = do
    check_revocable authorize
    put_authorization addr authorize

  abbrev pub clawback_allowed : Option DataValue → Result (Unit {0})
  clawback_allowed none = err (contract_error balance_error)
  clawback_allowed (some raw) =
      bind (as_balance raw)
        λ held. if held.clawback then ok tt else err (contract_error balance_error)

  unfoldable pub check_clawbackable : Address → Exec S (Unit {0})
  check_clawbackable (account id) = e.check_clawbackable_account id
  check_clawbackable (contract_address id) = do
    found ← e.try_get_contract_data (DataKey.balance (contract_address id)) persistent
    lift (clawback_allowed found)
