-- ===== src/Storage/Access.antt =====
-- soroban-env-host/src/storage.rs: `Footprint` and `Storage` with their methods.
use rs_stellar_contract_env.Prelude.{
  ℕ, Bool, true, false, Option, none, some, [], is_some, if◌then◌else◌,
}
use rs_stellar_contract_env.Error.{
  Result, ok, err, fail, ok_or, from_type_and_code, storage, exceeded_limit, missing_value,
  internal_error,
}
use rs_stellar_contract_env.Exec.{Exec, pure, lift, ◌>>=◌, ◌>>◌}
use rs_stellar_contract_env.MeteredMap
use rs_stellar_contract_env.MeteredMap.{MeteredOrdMap, Ctx}
use rs_stellar_contract_env.Metered.{Metered, charged, asks, writes}
use rs_stellar_contract_env.Storage.Ledger.{
  LedgerKey, LedgerEntry, EntryWithLiveUntil, check_supported_ledger_key_type,
  check_supported_ledger_entry_type,
}

pub data AccessType : Type 0 where
  read_only read_write : AccessType

-- A stable snapshot of the ledger, which the embedder provides.
pub record SnapshotSource (P : Type 0) : Type 0 where
  pub get : LedgerKey P → Result (EntryWithLiveUntil P)
  pub has : LedgerKey P → Result Bool

pub data FootprintMode (P : Type 0) : Type 0 where
  recording : SnapshotSource P → FootprintMode P
  enforcing : FootprintMode P

abbrev pub Footprint : Type 0 → Type 0
Footprint P = MeteredOrdMap (LedgerKey P) AccessType

abbrev pub StorageMap : Type 0 → Type 0
StorageMap P = MeteredOrdMap (LedgerKey P) (Option (EntryWithLiveUntil P))

pub record Storage (P : Type 0) : Type 0 where
  pub footprint : Footprint P
  pub mode : FootprintMode P
  pub map : StorageMap P

module _ {P : Type 0} where
  unfoldable pub with_enforcing_footprint_and_map : Footprint P → StorageMap P → Storage P
  with_enforcing_footprint_and_map footprint map = record {
    footprint = footprint;
    mode = enforcing;
    map = map;
  }

  unfoldable pub with_recording_footprint : SnapshotSource P → Storage P
  with_recording_footprint src = record {
    footprint = record { map = [] };
    mode = recording src;
    map = record { map = [] };
  }

  -- What the snapshot has at a key.
  unfoldable pub read_snapshot :
      SnapshotSource P → LedgerKey P → Result (Option (EntryWithLiveUntil P))
  read_snapshot src key = elim (src.has key) [
    | ok true ↦ elim (src.get key) [ ok e ↦ ok (some e) | err e ↦ err e ]
    | ok false ↦ ok none
    | err e ↦ err e
  ]

  abbrev pub entry_of : Option (EntryWithLiveUntil P) → Option (LedgerEntry P)
  entry_of (some pair) = some pair.0
  entry_of none = none

  unfoldable pub check_value : Option (EntryWithLiveUntil P) → Result (Unit {0})
  check_value (some le) = check_supported_ledger_entry_type le.0
  check_value none = ok tt

-- Whether the footprint allows an access.
unfoldable pub enforce_existing : AccessType → Option AccessType → Result (Unit {0})
enforce_existing read_only (some read_only) = ok tt
enforce_existing read_write (some read_only) = fail storage exceeded_limit
enforce_existing read_only (some read_write) = ok tt
enforce_existing read_write (some read_write) = ok tt
enforce_existing ty none = fail storage exceeded_limit

-- The two maps' comparisons and clones.
module _ {P : Type 0} (accesses : Ctx (LedgerKey P) AccessType)
    (entries : Ctx (LedgerKey P) (Option (EntryWithLiveUntil P))) where
  unfoldable pub insert_access : LedgerKey P → AccessType → Exec (Metered (Storage P)) (Unit {0})
  insert_access key ty = do
    self ← asks (λ s. s.footprint)
    footprint ← charged (MeteredMap.insert accesses self key ty)
    writes (λ s. record s { footprint = footprint })

  -- What is recorded for a key whose access was `existing`.
  unfoldable pub record_existing :
      LedgerKey P → AccessType → Option AccessType → Exec (Metered (Storage P)) (Unit {0})
  record_existing key read_only (some read_only) = pure tt
  record_existing key read_write (some read_only) = insert_access key read_write
  record_existing key read_only (some read_write) = pure tt
  record_existing key read_write (some read_write) = pure tt
  record_existing key ty none = insert_access key ty

  -- `Footprint::record_access`
  unfoldable pub record_access : LedgerKey P → AccessType → Exec (Metered (Storage P)) (Unit {0})
  record_access key ty = do
    self ← asks (λ s. s.footprint)
    existing ← charged (MeteredMap.get accesses self key)
    record_existing key ty existing

  -- `Footprint::enforce_access`
  unfoldable pub enforce_access : LedgerKey P → AccessType → Exec (Metered (Storage P)) (Unit {0})
  enforce_access key ty = do
    self ← asks (λ s. s.footprint)
    existing ← charged (MeteredMap.get accesses self key)
    lift (enforce_existing ty existing)

  unfoldable pub insert_entry :
      LedgerKey P → Option (EntryWithLiveUntil P) → Exec (Metered (Storage P)) (Unit {0})
  insert_entry key val = do
    self ← asks (λ s. s.map)
    map ← charged (MeteredMap.insert entries self key val)
    writes (λ s. record s { map = map })

  -- In recording mode the map is a cache whose misses read through to the snapshot.
  unfoldable pub fill_cache : SnapshotSource P → LedgerKey P → Exec (Metered (Storage P)) (Unit {0})
  fill_cache src key = do
    self ← asks (λ s. s.map)
    present ← charged (MeteredMap.contains_key entries self key)
    if present then pure tt else do value ← lift (read_snapshot src key); insert_entry key value

  unfoldable pub prepare_in_mode :
      LedgerKey P → FootprintMode P → Exec (Metered (Storage P)) (Unit {0})
  prepare_in_mode key (recording src) = do record_access key read_only; fill_cache src key
  prepare_in_mode key enforcing = enforce_access key read_only

  unfoldable pub prepare_read_only_access : LedgerKey P → Exec (Metered (Storage P)) (Unit {0})
  prepare_read_only_access key = do mode ← asks (λ s. s.mode); prepare_in_mode key mode

  unfoldable pub try_get_full :
      LedgerKey P → Exec (Metered (Storage P)) (Option (EntryWithLiveUntil P))
  try_get_full key = do
    lift (check_supported_ledger_key_type key)
    prepare_read_only_access key
    self ← asks (λ s. s.map)
    pair_option ← charged (MeteredMap.get entries self key)
    lift (ok_or pair_option (from_type_and_code storage internal_error))

  unfoldable pub get_with_live_until_ledger :
      LedgerKey P → Exec (Metered (Storage P)) (EntryWithLiveUntil P)
  get_with_live_until_ledger key = do
    pair ← try_get_full key
    lift (ok_or pair (from_type_and_code storage missing_value))

  unfoldable pub try_get : LedgerKey P → Exec (Metered (Storage P)) (Option (LedgerEntry P))
  try_get key = do pair ← try_get_full key; pure (entry_of pair)

  -- `Storage::get`
  unfoldable pub get : LedgerKey P → Exec (Metered (Storage P)) (LedgerEntry P)
  get key = do found ← try_get key; lift (ok_or found (from_type_and_code storage missing_value))

  unfoldable pub access_for_write :
      LedgerKey P → FootprintMode P → Exec (Metered (Storage P)) (Unit {0})
  access_for_write key (recording src) = record_access key read_write
  access_for_write key enforcing = enforce_access key read_write

  unfoldable pub put_opt :
      LedgerKey P → Option (EntryWithLiveUntil P) → Exec (Metered (Storage P)) (Unit {0})
  put_opt key val = do
    lift (check_supported_ledger_key_type key)
    lift (check_value val)
    mode ← asks (λ s. s.mode)
    access_for_write key mode
    insert_entry key val

  unfoldable pub put :
      LedgerKey P → LedgerEntry P → Option ℕ → Exec (Metered (Storage P)) (Unit {0})
  put key val live_until_ledger = put_opt key (some (val, live_until_ledger))

  unfoldable pub del : LedgerKey P → Exec (Metered (Storage P)) (Unit {0})
  del key = put_opt key none

  unfoldable pub has : LedgerKey P → Exec (Metered (Storage P)) Bool
  has key = do
    lift (check_supported_ledger_key_type key)
    prepare_read_only_access key
    self ← asks (λ s. s.map)
    found ← charged (MeteredMap.get entries self key)
    pair ← lift (ok_or found (from_type_and_code storage internal_error))
    pure (is_some pair)
