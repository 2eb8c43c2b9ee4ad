-- ===== src/StellarAsset/Contract.antt =====
-- soroban-env-host/src/builtin_contracts/stellar_asset_contract/contract.rs: the functions of the
-- contract that read and move balances and allowances.
use rs_stellar_contract_env.Prelude.{ℕ, Bool, if◌then◌else◌}
use rs_stellar_contract_env.Prelude.Int.{ℤ, pos, ltb_ℤ}
use rs_stellar_contract_env.Error.{Result, ok, err}
use rs_stellar_contract_env.Exec.{Exec, lift, ◌>>=◌, ◌>>◌}
use rs_stellar_contract_env.StellarAsset.{
  negative_amount, contract_error, Address, HostCalls, Event,
}
use rs_stellar_contract_env.StellarAsset.Allowance.{
  read_allowance, write_allowance, spend_allowance,
}
use rs_stellar_contract_env.StellarAsset.Balance.{
  read_balance, is_authorized, receive_balance, spend_balance, spend_balance_no_authorization_check,
  write_authorization, check_clawbackable,
}

unfoldable pub check_nonnegative_amount : ℤ → Result (Unit {0})
check_nonnegative_amount amount =
    if ltb_ℤ amount (pos 0) then err (contract_error negative_amount) else ok tt

module _ {S : Type 0} (e : HostCalls S) where
  unfoldable pub allowance : Address → Address → Exec S ℤ
  allowance from spender = do
    e.extend_current_contract_instance_and_code_ttl
    read_allowance e from spender

  unfoldable pub approve : Address → Address → ℤ → ℕ → Exec S (Unit {0})
  approve from spender amount live_until_ledger = do
    lift (check_nonnegative_amount amount)
    e.require_auth from
    e.extend_current_contract_instance_and_code_ttl
    owner ← e.clone_address from
    allowed ← e.clone_address spender
    write_allowance e owner allowed amount live_until_ledger
    e.publish (Event.approve from spender amount live_until_ledger)

  unfoldable pub balance : Address → Exec S ℤ
  balance addr = do e.extend_current_contract_instance_and_code_ttl; read_balance e addr

  unfoldable pub authorized : Address → Exec S Bool
  authorized addr = do e.extend_current_contract_instance_and_code_ttl; is_authorized e addr

  -- The two halves of a transfer, and its event.
  unfoldable pub move_balance : Address → Address → ℤ → Exec S (Unit {0})
  move_balance from to amount = do
    payer ← e.clone_address from
    spend_balance e payer amount
    payee ← e.clone_address to
    receive_balance e payee amount
    e.publish (Event.transfer from to amount)

  unfoldable pub transfer : Address → Address → ℤ → Exec S (Unit {0})
  transfer from to amount = do
    lift (check_nonnegative_amount amount)
    e.require_auth from
    e.extend_current_contract_instance_and_code_ttl
    move_balance from to amount

  unfoldable pub transfer_from : Address → Address → Address → ℤ → Exec S (Unit {0})
  transfer_from spender from to amount = do
    lift (check_nonnegative_amount amount)
    e.require_auth spender
    e.extend_current_contract_instance_and_code_ttl
    owner ← e.clone_address from
    spend_allowance e owner spender amount
    move_balance from to amount

  unfoldable pub burn : Address → ℤ → Exec S (Unit {0})
  burn from amount = do
    lift (check_nonnegative_amount amount)
    e.check_non_native
    e.check_not_issuer from
    e.require_auth from
    e.extend_current_contract_instance_and_code_ttl
    payer ← e.clone_address from
    spend_balance e payer amount
    e.publish (Event.burn from amount)

  unfoldable pub burn_from : Address → Address → ℤ → Exec S (Unit {0})
  burn_from spender from amount = do
    lift (check_nonnegative_amount amount)
    e.check_non_native
    e.check_not_issuer from
    e.require_auth spender
    e.extend_current_contract_instance_and_code_ttl
    owner ← e.clone_address from
    spend_allowance e owner spender amount
    payer ← e.clone_address from
    spend_balance e payer amount
    e.publish (Event.burn from amount)

  unfoldable pub clawback : Address → ℤ → Exec S (Unit {0})
  clawback from amount = do
    lift (check_nonnegative_amount amount)
    checked ← e.clone_address from
    check_clawbackable e checked
    e.check_not_issuer from
    admin ← e.read_administrator
    e.require_auth admin
    e.extend_current_contract_instance_and_code_ttl
    payer ← e.clone_address from
    spend_balance_no_authorization_check e payer amount
    e.publish (Event.clawback admin from amount)

  unfoldable pub set_authorized : Address → Bool → Exec S (Unit {0})
  set_authorized addr authorize = do
    admin ← e.read_administrator
    e.require_auth admin
    e.extend_current_contract_instance_and_code_ttl
    target ← e.clone_address addr
    write_authorization e target authorize
    e.publish (Event.set_authorized admin addr authorize)

  unfoldable pub mint : Address → ℤ → Exec S (Unit {0})
  mint to amount = do
    lift (check_nonnegative_amount amount)
    e.check_not_issuer to
    admin ← e.read_administrator
    e.require_auth admin
    e.extend_current_contract_instance_and_code_ttl
    payee ← e.clone_address to
    receive_balance e payee amount
    e.publish (Event.mint admin to amount)
