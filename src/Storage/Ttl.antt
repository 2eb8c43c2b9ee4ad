-- ===== src/Storage/Ttl.antt =====
-- The lifetime of entries: `extend_ttl` of soroban-env-host/src/storage.rs and the bounds of
-- soroban-env-host/src/host/ledger_info_helper.rs. The ledger info of the host is an argument; that
-- the host has one is assumed.
pub mod Laws
pub mod Extend
use rs_stellar_contract_env.Prelude.{
  ℕ, ◌+◌, ◌-◌, Bool, true, false, Option, none, some, if◌then◌else◌, ltb, leb, ◌&&◌, u32_max,
  checked_add, saturating_sub, Ordering,
}
use rs_stellar_contract_env.Error.{
  HostError, Result, ok, err, fail, ok_or, bind, from_type_and_code, storage, context,
  invalid_input, invalid_action, internal_error,
}
use rs_stellar_contract_env.Exec.{Exec, pure, lift, ◌>>=◌, ◌>>◌}
use rs_stellar_contract_env.MeteredMap.{Ctx}
use rs_stellar_contract_env.Metered.{Metered}
use rs_stellar_contract_env.Storage.Ledger.{
  LedgerKey, LedgerEntry, EntryWithLiveUntil, ContractDataDurability, temporary, persistent,
  get_key_durability, check_supported_ledger_key_type,
}
use rs_stellar_contract_env.Storage.Access.{
  AccessType, Storage, get_with_live_until_ledger, insert_entry,
}

-- What the host reads of the ledger.
pub record LedgerInfo : Type 0 where
  pub sequence_number : ℕ
  pub min_temp_entry_ttl : ℕ
  pub min_persistent_entry_ttl : ℕ
  pub max_entry_ttl : ℕ

-- A lifetime that overflows is a misconfigured network.
abbrev overflow : HostError
overflow = from_type_and_code context internal_error

abbrev pub min_ttl : LedgerInfo → ContractDataDurability → ℕ
min_ttl li temporary = li.min_temp_entry_ttl
min_ttl li persistent = li.min_persistent_entry_ttl

unfoldable pub get_min_live_until_ledger : LedgerInfo → ContractDataDurability → Result ℕ
get_min_live_until_ledger li storage_type =
    ok_or (checked_add u32_max li.sequence_number (saturating_sub (min_ttl li storage_type) 1))
      overflow

unfoldable pub max_live_until_ledger : LedgerInfo → Result ℕ
max_live_until_ledger li =
    ok_or (checked_add u32_max li.sequence_number (saturating_sub li.max_entry_ttl 1)) overflow

-- Past the greatest lifetime, persistent entries get that one, and temporary ones are refused.
unfoldable pub clamp_live_until : Option ContractDataDurability → ℕ → Result ℕ
clamp_live_until (some persistent) max = ok max
clamp_live_until (some temporary) max = fail storage invalid_action
clamp_live_until none max = fail storage internal_error

-- The last ledger at which an extended entry lives.
unfoldable pub new_live_until : {P : Type 0} → LedgerInfo → LedgerKey P → ℕ → Result ℕ
unfolding max_live_until_ledger clamp_live_until get_key_durability
new_live_until li key extend_to =
    bind (ok_or (checked_add u32_max li.sequence_number extend_to) overflow) λ wanted.
      bind (max_live_until_ledger li)
        λ max. if ltb max wanted then clamp_live_until (get_key_durability key) max else ok wanted

-- Whether the entry is extended: it gains, and it is within the threshold of its end.
unfoldable pub needs_extension : LedgerInfo → ℕ → ℕ → ℕ → Bool
needs_extension li old new threshold =
    ltb old new && leb (saturating_sub old li.sequence_number) threshold

module _ {P : Type 0} (accesses : Ctx (LedgerKey P) AccessType)
    (entries : Ctx (LedgerKey P) (Option (EntryWithLiveUntil P))) where
  -- What follows once the entry and its lifetime are known.
  unfoldable pub extend_entry :
      LedgerInfo → LedgerKey P → ℕ → ℕ → LedgerEntry P → ℕ → Exec (Metered (Storage P)) (Unit {0})
  extend_entry li key threshold extend_to entry old_live_until =
      if ltb old_live_until li.sequence_number then lift (fail storage internal_error) else do
        new ← lift (new_live_until li key extend_to)
        if needs_extension li old_live_until new threshold
            then insert_entry accesses entries key (some (entry, some new))
            else pure tt

  unfoldable pub extend_ttl :
      LedgerInfo → LedgerKey P → ℕ → ℕ → Exec (Metered (Storage P)) (Unit {0})
  extend_ttl li key threshold extend_to = do
    lift (check_supported_ledger_key_type key)
    if ltb extend_to threshold then lift (fail storage invalid_input) else do
      pair ← get_with_live_until_ledger accesses entries key
      old_live_until ← lift (ok_or pair.1 (from_type_and_code storage internal_error))
      extend_entry li key threshold extend_to pair.0 old_live_until
