-- ===== src/Storage/Ledger.antt =====
-- The ledger keys and entries as soroban-env-host/src/storage.rs tells them apart, with the two
-- checks of their types. What a key or an entry holds comes from the XDR definitions and is a
-- parameter; of `ContractData` keys the durability is read.
use rs_stellar_contract_env.Prelude.{ℕ, Option, none, some}
use rs_stellar_contract_env.Error.{Result, ok, fail, storage, internal_error}

pub data ContractDataDurability : Type 0 where
  temporary persistent : ContractDataDurability

pub data LedgerKey (P : Type 0) : Type 0 where
  account trustline contract_code : P → LedgerKey P
  contract_data : P → ContractDataDurability → LedgerKey P
  offer data_key claimable_balance liquidity_pool config_setting ttl : P → LedgerKey P

pub data LedgerEntryData (P : Type 0) : Type 0 where
  account trustline contract_data contract_code : P → LedgerEntryData P
  offer data_entry claimable_balance liquidity_pool config_setting ttl : P → LedgerEntryData P

-- The other fields of an entry are not read here.
pub record LedgerEntry (P : Type 0) : Type 0 where
  pub entry_data : LedgerEntryData P

-- An entry with the last ledger at which it lives, where it has one.
abbrev pub EntryWithLiveUntil : Type 0 → Type 0
EntryWithLiveUntil P = LedgerEntry P × Option ℕ

module _ {P : Type 0} where
  unfoldable pub check_entry_data : LedgerEntryData P → Result (Unit {0})
  check_entry_data (LedgerEntryData.account _) = ok tt
  check_entry_data (LedgerEntryData.trustline _) = ok tt
  check_entry_data (LedgerEntryData.contract_data _) = ok tt
  check_entry_data (LedgerEntryData.contract_code _) = ok tt
  check_entry_data _ = fail storage internal_error

  unfoldable pub check_supported_ledger_entry_type : LedgerEntry P → Result (Unit {0})
  unfolding check_entry_data
  check_supported_ledger_entry_type le = check_entry_data le.entry_data

  unfoldable pub check_supported_ledger_key_type : LedgerKey P → Result (Unit {0})
  check_supported_ledger_key_type (LedgerKey.account _) = ok tt
  check_supported_ledger_key_type (LedgerKey.trustline _) = ok tt
  check_supported_ledger_key_type (LedgerKey.contract_data _ _) = ok tt
  check_supported_ledger_key_type (LedgerKey.contract_code _) = ok tt
  check_supported_ledger_key_type _ = fail storage internal_error

  -- soroban-env-host/src/host/ledger_info_helper.rs
  unfoldable pub get_key_durability : LedgerKey P → Option ContractDataDurability
  get_key_durability (LedgerKey.contract_data _ durability) = some durability
  get_key_durability (LedgerKey.contract_code _) = some persistent
  get_key_durability _ = none
