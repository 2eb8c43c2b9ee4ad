-- ===== src/Storage/Ttl/Laws.antt =====
-- The lifetime that an extension by `extend_ttl` asks for, in soroban-env-host/src/storage.rs.
use rs_stellar_contract_env.Prelude.{ℕ, ◌+◌, ◌-◌, ◌≤◌, ◌≡◌, ◌⊎◌, some, arith}
use rs_stellar_contract_env.Error.{ok}
use rs_stellar_contract_env.Storage.Ledger.{LedgerKey, persistent, get_key_durability}
use rs_stellar_contract_env.Storage.Ttl.{
  LedgerInfo, max_live_until_ledger, new_live_until, clamp_live_until,
}

-- Where the new lifetime of an extension is defined, it is at most the number of ledgers asked
-- for from the current one, and at most the greatest lifetime of the network; it is exactly what
-- was asked for, unless the entry is persistent.
pub new_live_until_bounds :
    {P : Type 0} (li : LedgerInfo) (key : LedgerKey P) (extend_to new : ℕ)
    → new_live_until li key extend_to ≡ ok new
    → (new ≤ li.sequence_number + extend_to)
      × (new ≤ li.sequence_number + (li.max_entry_ttl - 1))
      × ((new ≡ li.sequence_number + extend_to) ⊎ (get_key_durability key ≡ some persistent))
unfolding new_live_until max_live_until_ledger clamp_live_until get_key_durability
new_live_until_bounds li key extend_to new h = ground arith
