-- ===== src/Frame/Instance.antt =====
-- The instance of a contract: its storage, which a frame reads and writes in memory
-- (soroban-env-host/src/host/frame.rs), and its ledger entry
-- (soroban-env-host/src/host/data_helper.rs).
use rs_stellar_contract_env.Prelude.{Bool, true, false, Option, none, some, List, [], if◌then◌else◌}
use rs_stellar_contract_env.Error.{
  Result, ok, fail, ok_or, from_type_and_code, context, storage, internal_error,
}
use rs_stellar_contract_env.Exec.{Exec, pure, lift, ◌>>=◌, ◌>>◌}
use rs_stellar_contract_env.Budget.Charge.{BudgetImpl}
use rs_stellar_contract_env.MeteredClone.{metered_clone, metered_new}
use rs_stellar_contract_env.MeteredMap.{from_map}
use rs_stellar_contract_env.Metered.{Metered, charged, asks, writes}
use rs_stellar_contract_env.Storage.Ledger.{LedgerKey, LedgerEntryData, persistent}
use rs_stellar_contract_env.Storage.Access
use rs_stellar_contract_env.Storage.Access.{get_with_live_until_ledger, put}
use rs_stellar_contract_env.Storage.Ttl.{get_min_live_until_ledger}
use rs_stellar_contract_env.Frame.Types.{
  World, Services, OnHost, Context, InstanceStorageMap, ScContractInstance, ContractExecutable,
}
use rs_stellar_contract_env.Frame.Stack.{
  on_storage, instance_of_frame, no_frame, with_current_context_mut,
  get_current_contract_id_internal,
}

module _ {W : World} (svc : Services W) where
  -- The entries that an instance is stored with.
  abbrev pub stored_entries : Option W.ScMap → Exec BudgetImpl (List (W.Val × W.Val))
  stored_entries none = pure []
  stored_entries (some m) = svc.scmap_to_host_vals m

  -- `InstanceStorageMap::from_map`
  unfoldable pub instance_map : List (W.Val × W.Val) → Exec BudgetImpl (InstanceStorageMap W)
  instance_map map = do m ← from_map svc.values map; pure (record { map = m; is_modified = false })

  unfoldable pub load_storage :
      Option (ScContractInstance W) → Exec (Metered (Context W)) (Unit {0})
  load_storage none = lift no_frame
  load_storage (some instance) = do
    vals ← charged (stored_entries instance.storage)
    loaded ← charged (instance_map vals)
    writes (λ ctx. record ctx { storage = some loaded })

  abbrev pub load_if_absent :
      Option (InstanceStorageMap W)
      → Option (ScContractInstance W)
      → Exec (Metered (Context W)) (Unit {0})
  load_if_absent (some _) instance = pure tt
  load_if_absent none instance = load_storage instance

  unfoldable pub maybe_init_instance_storage : Exec (Metered (Context W)) (Unit {0})
  unfolding instance_of_frame
  maybe_init_instance_storage = do
    ctx ← asks (λ ctx. ctx)
    load_if_absent ctx.storage (instance_of_frame ctx.frame)

  unfoldable pub with_instance_storage :
      {A : Type 0} → (InstanceStorageMap W → Exec BudgetImpl A) → OnHost W A
  with_instance_storage f = with_current_context_mut (do
    maybe_init_instance_storage
    ctx ← asks (λ ctx. ctx)
    held ← lift (ok_or ctx.storage (from_type_and_code context internal_error))
    charged (f held))

  -- The storage as the callback left it is kept, also when it fails.
  unfoldable pub on_modified :
      {A : Type 0} → Exec (Metered (InstanceStorageMap W)) A → Exec (Metered (Context W)) A
  on_modified f s = elim s.own.storage [
    | none ↦ (no_frame, s)
    | some held ↦
        let (r, end) = f (record { own = record held { is_modified = true }; funds = s.funds }) in
        (r, record { own = record s.own { storage = some end.own }; funds = end.funds })
  ]

  unfoldable pub with_mut_instance_storage :
      {A : Type 0} → Exec (Metered (InstanceStorageMap W)) A → OnHost W A
  with_mut_instance_storage f =
      with_current_context_mut (do maybe_init_instance_storage; on_modified f)

  unfoldable pub contract_instance_ledger_key : W.Hash → OnHost W (LedgerKey W.Payload)
  contract_instance_ledger_key id = do
    contract_id ← charged (metered_clone svc.hash id)
    charged (
        metered_new svc.ledger_key
          (LedgerKey.contract_data (svc.instance_key contract_id) persistent))

  -- The instance in a ledger entry.
  unfoldable pub instance_in : LedgerEntryData W.Payload → Result (ScContractInstance W)
  instance_in (LedgerEntryData.contract_data e) =
      ok_or (svc.instance_of e) (from_type_and_code storage internal_error)
  instance_in _ = fail storage internal_error

  unfoldable pub retrieve_contract_instance_from_storage :
      LedgerKey W.Payload → OnHost W (ScContractInstance W)
  retrieve_contract_instance_from_storage key = do
    entry ← on_storage (Access.get svc.accesses svc.entries key)
    instance ← lift (instance_in entry.entry_data)
    charged (metered_clone svc.instance instance)

  unfoldable pub contract_code_ledger_key : W.Hash → OnHost W (LedgerKey W.Payload)
  contract_code_ledger_key wasm_hash = do
    hash ← charged (metered_clone svc.hash wasm_hash)
    charged (metered_new svc.ledger_key (LedgerKey.contract_code (svc.code_key hash)))

  unfoldable pub code_in : LedgerEntryData W.Payload → Result W.Code
  code_in (LedgerEntryData.contract_code e) = ok (svc.code_of e)
  code_in _ = fail storage internal_error

  unfoldable pub retrieve_wasm_from_storage : W.Hash → OnHost W W.Code
  retrieve_wasm_from_storage wasm_hash = do
    key ← contract_code_ledger_key wasm_hash
    entry ← on_storage (Access.get svc.accesses svc.entries key)
    code ← lift (code_in entry.entry_data)
    charged (metered_clone svc.code code)

  unfoldable pub wasm_exists : W.Hash → OnHost W Bool
  wasm_exists wasm_hash = do
    key ← contract_code_ledger_key wasm_hash
    on_storage (Access.has svc.accesses svc.entries key)

  abbrev pub replaced_executable :
      Option (ContractExecutable W) → ScContractInstance W → ScContractInstance W
  replaced_executable none instance = instance
  replaced_executable (some executable) instance = record instance { executable = executable }

  abbrev pub replaced_storage : Option W.ScMap → ScContractInstance W → ScContractInstance W
  replaced_storage none instance = instance
  replaced_storage (some entries) instance = record instance { storage = some entries }

  -- The entry with the given parts of its instance replaced.
  unfoldable pub replaced_in :
      Option (ContractExecutable W)
      → Option W.ScMap
      → LedgerEntryData W.Payload
      → Result (LedgerEntryData W.Payload)
  replaced_in executable instance_storage (LedgerEntryData.contract_data e) =
      elim (svc.instance_of e) [
        | none ↦ fail storage internal_error
        | some instance ↦ ok (
            LedgerEntryData.contract_data (
              svc.with_instance
                (replaced_storage instance_storage (replaced_executable executable instance)) e))
      ]
  replaced_in executable instance_storage _ = fail storage internal_error

  unfoldable pub update_instance :
      Option (ContractExecutable W) → Option W.ScMap → LedgerKey W.Payload → OnHost W (Unit {0})
  update_instance executable instance_storage key = do
    held ← on_storage (get_with_live_until_ledger svc.accesses svc.entries key)
    current ← charged (metered_clone svc.entry held)
    replaced ← lift (replaced_in executable instance_storage current.0.entry_data)
    new ← charged (metered_new svc.entry (record { entry_data = replaced }, current.1))
    on_storage (put svc.accesses svc.entries key new.0 held.1)

  unfoldable pub create_instance :
      Option (ContractExecutable W)
      → Option W.ScMap
      → W.Hash
      → LedgerKey W.Payload
      → OnHost W (Unit {0})
  create_instance executable instance_storage id key = do
    contract ← charged (metered_clone svc.hash id)
    given ← lift (ok_or executable (from_type_and_code context internal_error))
    new ← charged (
        metered_new svc.entry (
          record {
            entry_data = LedgerEntryData.contract_data (
                svc.new_instance contract
                  (record { executable = given; storage = instance_storage }));
          },
          none,
        ))
    ledger ← asks (λ h. h.ledger)
    live_until ← lift (get_min_live_until_ledger ledger persistent)
    on_storage (put svc.accesses svc.entries key new.0 (some live_until))

  unfoldable pub store_contract_instance :
      Option (ContractExecutable W)
      → Option W.ScMap
      → W.Hash
      → LedgerKey W.Payload
      → OnHost W (Unit {0})
  store_contract_instance executable instance_storage id key = do
    exists ← on_storage (Access.has svc.accesses svc.entries key)
    if exists
        then update_instance executable instance_storage key
        else create_instance executable instance_storage id key

  -- What is to be written back of a context's instance storage.
  abbrev pub modified_entries : Option (InstanceStorageMap W) → Exec BudgetImpl (Option W.ScMap)
  modified_entries none = pure none
  modified_entries (some held) =
      if held.is_modified then (do m ← svc.host_map_to_scmap held.map; pure (some m)) else pure none

  unfoldable pub write_back : Option W.ScMap → OnHost W (Unit {0})
  write_back none = pure tt
  write_back (some updated) = do
    id ← get_current_contract_id_internal svc
    key ← contract_instance_ledger_key id
    store_contract_instance none (some updated) id key

  unfoldable pub persist_instance_storage : OnHost W (Unit {0})
  persist_instance_storage = do
    updated ←
        with_current_context_mut
          (do ctx ← asks (λ ctx. ctx); charged (modified_entries ctx.storage))
    write_back updated
