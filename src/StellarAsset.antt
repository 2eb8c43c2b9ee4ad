-- ===== src/StellarAsset.antt =====
-- The Stellar asset contract,
-- soroban-env-host/src/builtin_contracts/stellar_asset_contract/: balances and allowances of contract
-- addresses over the contract data of the host. Amounts are `i128`.
pub mod Allowance
pub mod Balance
pub mod Contract
pub mod Reaches
pub mod Granting
pub mod Spending
pub mod Moving
pub mod Transfer
pub mod Supply
use rs_stellar_contract_env.Prelude.{
  ℕ, Bool, true, false, Option, none, some, ◌==◌, ◌&&◌, ◌*◌, ◌-◌, leb, if◌then◌else◌,
}
use rs_stellar_contract_env.Prelude.Int.{ℤ, pos, negsuc, ◌+ℤ◌, ◌-ℤ◌, i128_max}
use rs_stellar_contract_env.Error.{
  HostError, Result, ok, err, fail, ok_or, from_contract_error, from_type_and_code, storage, value,
  missing_value, unexpected_type,
}
use rs_stellar_contract_env.Exec.{Exec, lift, ◌>>=◌}
use rs_stellar_contract_env.Storage.Ttl.{LedgerInfo}

-- soroban-env-host/src/builtin_contracts/contract_error.rs
pub data ContractError : Type 0 where
  internal_error operation_not_supported already_initialized unauthorized authentication :
      ContractError
  account_missing account_is_not_classic negative_amount allowance_error balance_error :
      ContractError
  balance_deauthorized overflow trustline_missing : ContractError

abbrev code_of_error : ContractError → ℕ
code_of_error internal_error = 1
code_of_error operation_not_supported = 2
code_of_error already_initialized = 3
code_of_error unauthorized = 4
code_of_error authentication = 5
code_of_error account_missing = 6
code_of_error account_is_not_classic = 7
code_of_error negative_amount = 8
code_of_error allowance_error = 9
code_of_error balance_error = 10
code_of_error balance_deauthorized = 11
code_of_error overflow = 12
code_of_error trustline_missing = 13

abbrev pub contract_error : ContractError → HostError
contract_error e = from_contract_error (code_of_error e)

-- An address: an account's key or a contract's hash, as a number.
pub data Address : Type 0 where
  account contract_address : ℕ → Address

-- soroban-env-host/src/builtin_contracts/stellar_asset_contract/storage_types.rs
pub record AllowanceValue : Type 0 where
  pub amount : ℤ
  pub live_until_ledger : ℕ

pub record BalanceValue : Type 0 where
  pub amount : ℤ
  pub authorized : Bool
  pub clawback : Bool

-- `AllowanceDataKey` is the pair of the owner and the spender.
pub data DataKey : Type 0 where
  allowance : Address → Address → DataKey
  balance : Address → DataKey

-- The host value of an entry.
pub data DataValue : Type 0 where
  allowance : AllowanceValue → DataValue
  balance : BalanceValue → DataValue

pub data StorageType : Type 0 where
  temporary persistent : StorageType

abbrev pub day_in_ledgers : ℕ
day_in_ledgers = 17280

abbrev pub balance_extend_amount : ℕ
balance_extend_amount = 30 * day_in_ledgers

abbrev pub balance_ttl_threshold : ℕ
balance_ttl_threshold = balance_extend_amount - day_in_ledgers

-- `raw.try_into_val(e)`
unfoldable pub as_allowance : DataValue → Result AllowanceValue
as_allowance (DataValue.allowance a) = ok a
as_allowance (DataValue.balance b) = fail value unexpected_type

unfoldable pub as_balance : DataValue → Result BalanceValue
as_balance (DataValue.balance b) = ok b
as_balance (DataValue.allowance a) = fail value unexpected_type

abbrev fits_i128 : ℤ → Bool
fits_i128 (pos n) = leb n i128_max
fits_i128 (negsuc n) = leb n i128_max

-- `i128::checked_add` and `i128::checked_sub`
unfoldable pub checked_add_ℤ : ℤ → ℤ → Option ℤ
checked_add_ℤ a b = if fits_i128 (a +ℤ b) then some (a +ℤ b) else none

unfoldable pub checked_sub_ℤ : ℤ → ℤ → Option ℤ
checked_sub_ℤ a b = if fits_i128 (a -ℤ b) then some (a -ℤ b) else none

pub data AccountFlags : Type 0 where
  required_flag revocable_flag clawback_enabled_flag : AccountFlags

pub data Event : Type 0 where
  approve : Address → Address → ℤ → ℕ → Event
  transfer : Address → Address → ℤ → Event
  mint clawback : Address → Address → ℤ → Event
  burn : Address → ℤ → Event
  set_authorized : Address → Address → Bool → Event

-- What the contract calls of its host, whose state is `S`: contract data, the ledger, authorization,
-- events, the asset and its issuer, and the balances of accounts.
pub record HostCalls (S : Type 0) : Type 0 where
  pub clone_address : Address → Exec S Address
  pub try_get_contract_data : DataKey → StorageType → Exec S (Option DataValue)
  pub put_contract_data : DataKey → DataValue → StorageType → Exec S (Unit {0})
  pub extend_contract_data_ttl : DataKey → StorageType → ℕ → ℕ → Exec S (Unit {0})
  pub extend_current_contract_instance_and_code_ttl : Exec S (Unit {0})
  pub ledger_info : Exec S LedgerInfo
  pub require_auth : Address → Exec S (Unit {0})
  pub publish : Event → Exec S (Unit {0})
  pub read_administrator : Exec S Address
  pub check_non_native : Exec S (Unit {0})
  pub check_not_issuer : Address → Exec S (Unit {0})
  pub is_asset_issuer_flag_set : AccountFlags → Exec S Bool
  pub get_classic_balance : ℕ → Exec S ℤ
  pub transfer_classic_balance : ℕ → ℤ → Exec S (Unit {0})
  pub is_account_authorized : ℕ → Exec S Bool
  pub set_authorization : ℕ → Bool → Exec S (Unit {0})
  pub check_clawbackable_account : ℕ → Exec S (Unit {0})

-- `get_contract_data`
unfoldable pub get_contract_data :
    {S : Type 0} → HostCalls S → DataKey → StorageType → Exec S DataValue
get_contract_data e key ty = do
  found ← e.try_get_contract_data key ty
  lift (ok_or found (from_type_and_code storage missing_value))
