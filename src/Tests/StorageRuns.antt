-- ===== src/Tests/StorageRuns.antt =====
-- The storage's theorems at a footprint of two keys.
use rs_stellar_contract_env.Prelude.{
  ◌<◌, ℕ, ◌+◌, ◌-◌, ◌*◌, ◌≤◌, ◌≡◌, ◌≢◌, ◌⊎◌, refl, Option, none, some, [], ◌∷◌, arith,
}
use rs_stellar_contract_env.Error.{ok, fail, storage, exceeded_limit}
use rs_stellar_contract_env.Exec.{◌>>◌}
use rs_stellar_contract_env.Metered.{Runs}
use rs_stellar_contract_env.MeteredMap.{Ctx}
use rs_stellar_contract_env.MeteredMap.Spec
use rs_stellar_contract_env.Storage.Ledger.{
  LedgerKey, LedgerEntry, LedgerEntryData, EntryWithLiveUntil, temporary, persistent,
  get_key_durability, check_supported_ledger_key_type, check_supported_ledger_entry_type,
}
use rs_stellar_contract_env.Storage.Access.{
  AccessType, read_only, read_write, enforce_existing, record_access, enforce_access, Storage,
  with_enforcing_footprint_and_map, check_value, put_opt, try_get_full,
}
use rs_stellar_contract_env.Storage.Footprint.{access, cached, with_entry}
use rs_stellar_contract_env.Storage.Enforcing.{IsEnforcing}
use rs_stellar_contract_env.Storage.Writing.{Runs-put_opt_refused, Runs-put_get}
use rs_stellar_contract_env.Storage.Recording.{recorded, Runs-record_enforce}
use rs_stellar_contract_env.Storage.Ttl.{LedgerInfo, new_live_until, extend_ttl}
use rs_stellar_contract_env.Storage.Ttl.Laws.{new_live_until_bounds}
use rs_stellar_contract_env.Storage.Ttl.Extend.{Runs-extend_ttl}
use rs_stellar_contract_env.Tests.Concrete.{by_rank, ranked, ranked-IsContext}

-- Ten ranks for each payload.
abbrev pub rank : LedgerKey ℕ → ℕ
rank (LedgerKey.account p) = p * 10
rank (LedgerKey.trustline p) = p * 10 + 1
rank (LedgerKey.contract_code p) = p * 10 + 2
rank (LedgerKey.contract_data p temporary) = p * 10 + 3
rank (LedgerKey.contract_data p persistent) = p * 10 + 4
rank (LedgerKey.offer p) = p * 10 + 5
rank (LedgerKey.data_key p) = p * 10 + 6
rank (LedgerKey.claimable_balance p) = p * 10 + 7
rank (LedgerKey.liquidity_pool p) = p * 10 + 8
rank (LedgerKey.config_setting p) = p * 10 + 9
rank (LedgerKey.ttl p) = p * 10 + 9

abbrev pub counter : LedgerKey ℕ
counter = LedgerKey.contract_data 1 persistent

abbrev code : LedgerKey ℕ
code = LedgerKey.contract_code 2

abbrev pub counter_entry : ℕ → LedgerEntry ℕ
counter_entry n = record { entry_data = LedgerEntryData.contract_data n }

abbrev pub host_storage : Storage ℕ
unfolding with_enforcing_footprint_and_map
host_storage =
    with_enforcing_footprint_and_map
      (record { map = (counter, read_write) ∷ (code, read_only) ∷ [] })
      (record { map = (counter, some (counter_entry 7, some 120)) ∷ (code, none) ∷ [] })

covered_by :
    (key : LedgerKey ℕ)
    → access (by_rank rank) host_storage key ≢ none
    → cached (by_rank rank) host_storage key ≢ none
unfolding host_storage Spec.lookup
covered_by key h e = h (ground arith)

host_storage-IsEnforcing : IsEnforcing (by_rank rank) host_storage
unfolding host_storage
host_storage-IsEnforcing = record {
  valid = record {
    footprint_sorted = ((refl, tt), (tt, tt));
    map_sorted = ((refl, tt), (tt, tt));
    footprint_length = omega arith;
    map_length = omega arith;
  };
  mode = refl;
  covered = covered_by;
}

abbrev accesses : Ctx (LedgerKey ℕ) AccessType
accesses = ranked rank

abbrev entries : Ctx (LedgerKey ℕ) (Option (EntryWithLiveUntil ℕ))
entries = ranked rank

Runs-put_get_example :
    Runs
      (put_opt accesses entries counter (some (counter_entry 8, some 120))
        >> try_get_full accesses entries counter)
      host_storage
      (ok (some (counter_entry 8, some 120)))
      (with_entry (by_rank rank) host_storage counter (some (counter_entry 8, some 120)))
unfolding host_storage Spec.lookup check_value check_supported_ledger_entry_type
    check_supported_ledger_key_type
Runs-put_get_example =
    Runs-put_get accesses entries (by_rank rank) (ranked-IsContext rank) (ranked-IsContext rank)
      host_storage counter (some (counter_entry 8, some 120)) host_storage-IsEnforcing refl refl
      refl

Runs-put_opt_refused_example :
    Runs
      (put_opt accesses entries code none)
      host_storage
      (fail storage exceeded_limit)
      host_storage
unfolding host_storage Spec.lookup check_value check_supported_ledger_key_type
Runs-put_opt_refused_example =
    Runs-put_opt_refused accesses entries (by_rank rank) (ranked-IsContext rank)
      (ranked-IsContext rank) host_storage code none host_storage-IsEnforcing refl refl (λ e. cc e)

abbrev network : LedgerInfo
network = record {
  sequence_number = 100;
  min_temp_entry_ttl = 16;
  min_persistent_entry_ttl = 48;
  max_entry_ttl = 1000;
}

new_live_until_bounds_example :
    (600 ≤ 100 + 500)
    × (600 ≤ 100 + (1000 - 1))
    × ((600 ≡ 100 + 500) ⊎ (get_key_durability counter ≡ some persistent))
unfolding new_live_until
new_live_until_bounds_example = new_live_until_bounds network counter 500 600 refl

Runs-extend_ttl_example :
    ((120 < 600)
      × (120 ≤ 100 + 50)
      × Runs
          (extend_ttl accesses entries network counter 50 500)
          host_storage
          (ok tt)
          (with_entry (by_rank rank) host_storage counter (some (counter_entry 7, some 600))))
    ⊎ (((600 ≤ 120) ⊎ (100 + 50 < 120))
        × Runs
            (extend_ttl accesses entries network counter 50 500)
            host_storage
            (ok tt)
            host_storage)
unfolding host_storage Spec.lookup check_supported_ledger_key_type enforce_existing new_live_until
Runs-extend_ttl_example =
    Runs-extend_ttl accesses entries (by_rank rank) (ranked-IsContext rank) (ranked-IsContext rank)
      network host_storage counter 50 500 (counter_entry 7) 120 600 host_storage-IsEnforcing refl
      refl refl (omega arith) (omega arith) refl

Runs-record_enforce_example :
    Runs
      (record_access accesses entries code read_write
        >> enforce_access accesses entries code read_write)
      host_storage
      (ok tt)
      (recorded
        (by_rank rank)
        host_storage
        code
        read_write
        (access (by_rank rank) host_storage code))
unfolding host_storage Spec.insert
Runs-record_enforce_example =
    Runs-record_enforce accesses entries (by_rank rank) (ranked-IsContext rank)
      (ranked-IsContext rank) host_storage code read_write host_storage-IsEnforcing.valid
      (omega arith)
