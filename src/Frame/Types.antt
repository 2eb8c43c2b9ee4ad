-- ===== src/Frame/Types.antt =====
-- soroban-env-host/src/host/frame.rs: the types of frames and contexts, and the parts of the host's
-- state that they work on (soroban-env-host/src/host.rs).
use rs_stellar_contract_env.Prelude.{ℕ, Bool, Option, List}
use rs_stellar_contract_env.Error.{HostError}
use rs_stellar_contract_env.Exec.{Exec}
use rs_stellar_contract_env.Budget.Charge.{BudgetImpl}
use rs_stellar_contract_env.MeteredClone.{MeteredClone}
use rs_stellar_contract_env.MeteredMap.{MeteredOrdMap, Ctx}
use rs_stellar_contract_env.Metered.{Metered}
use rs_stellar_contract_env.Events.{InternalEventsBuffer}
use rs_stellar_contract_env.Storage.Ledger.{LedgerKey, EntryWithLiveUntil}
use rs_stellar_contract_env.Storage.Access.{AccessType, Storage, StorageMap}
use rs_stellar_contract_env.Storage.Ttl.{LedgerInfo}

-- The types of what frames carry and do not look into.
pub record World : Type 1 where
  pub Hash : Type 0
  pub Symbol : Type 0
  pub Val : Type 0
  pub Object : Type 0
  pub HostFunctionType : Type 0
  pub Module : Type 0
  pub Code : Type 0
  pub ScMap : Type 0
  pub Payload : Type 0
  pub Prng : Type 0
  pub AuthManager : Type 0
  pub AuthSnapshot : Type 0
  pub ContractEvent : Type 0
  pub DiagnosticEvent : Type 0

pub data ContractExecutable (W : World) : Type 0 where
  wasm : W.Hash → ContractExecutable W
  stellar_asset : ContractExecutable W

pub record ScContractInstance (W : World) : Type 0 where
  pub executable : ContractExecutable W
  pub storage : Option W.ScMap

-- The contract that a virtual machine runs, and the interpreter's module.
pub record Vm (W : World) : Type 0 where
  pub contract_id : W.Hash
  pub wasm_module : W.Module

pub data Frame (W : World) : Type 0 where
  contract_vm : Vm W → W.Symbol → List W.Val → ScContractInstance W → List W.Object → Frame W
  host_function : W.HostFunctionType → Frame W
  stellar_asset_contract : W.Hash → W.Symbol → List W.Val → ScContractInstance W → Frame W

pub record InstanceStorageMap (W : World) : Type 0 where
  pub map : MeteredOrdMap W.Val W.Val
  pub is_modified : Bool

pub record Context (W : World) : Type 0 where
  pub frame : Frame W
  pub prng : Option W.Prng
  pub storage : Option (InstanceStorageMap W)

pub record RollbackPoint (W : World) : Type 0 where
  pub storage : StorageMap W.Payload
  pub events : ℕ
  pub auth : W.AuthSnapshot

-- The stack is written from its top down.
pub record Host (W : World) : Type 0 where
  pub context_stack : List (Context W)
  pub storage : Storage W.Payload
  pub events : InternalEventsBuffer W.ContractEvent W.DiagnosticEvent
  pub authorization_manager : W.AuthManager
  pub base_prng : Option W.Prng
  pub ledger : LedgerInfo

-- A method of the host.
abbrev pub OnHost : World → Type 0 → Type 0
OnHost W A = Exec (Metered (Host W)) A

-- What the frames call of other parts: clones and comparisons, `Error::try_from(val)`, the
-- authorization manager, the generator of random numbers, the conversion of values, the parts of a
-- ledger entry that the XDR definitions give, and the code of a contract.
pub record Services (W : World) : Type 1 where
  pub accesses : Ctx (LedgerKey W.Payload) AccessType
  pub entries : Ctx (LedgerKey W.Payload) (Option (EntryWithLiveUntil W.Payload))
  pub values : Ctx W.Val W.Val
  pub storage_map : MeteredClone (StorageMap W.Payload)
  pub hash : MeteredClone W.Hash
  pub context : MeteredClone (Context W)
  pub ledger_key : MeteredClone (LedgerKey W.Payload)
  pub entry : MeteredClone (EntryWithLiveUntil W.Payload)
  pub instance : MeteredClone (ScContractInstance W)
  pub code : MeteredClone W.Code
  pub val : MeteredClone W.Val
  pub vec_size : ℕ
  pub as_error : W.Val → Option HostError
  pub same_hash : W.Hash → W.Hash → Bool
  pub symbol_bytes : W.Symbol → Exec BudgetImpl (List ℕ)
  pub push_frame : Frame W → Exec (Metered W.AuthManager) W.AuthSnapshot
  pub pop_frame : Option W.AuthSnapshot → Exec (Metered W.AuthManager) (Unit {0})
  pub sub_prng : Exec (Metered W.Prng) W.Prng
  pub host_map_to_scmap : MeteredOrdMap W.Val W.Val → Exec BudgetImpl W.ScMap
  pub scmap_to_host_vals : W.ScMap → Exec BudgetImpl (List (W.Val × W.Val))
  pub instance_key : W.Hash → W.Payload
  pub code_key : W.Hash → W.Payload
  pub new_instance : W.Hash → ScContractInstance W → W.Payload
  pub instance_of : W.Payload → Option (ScContractInstance W)
  pub with_instance : ScContractInstance W → W.Payload → W.Payload
  pub code_of : W.Payload → W.Code
  pub new_vm : W.Hash → W.Code → OnHost W (Vm W)
  pub invoke_function_raw : Vm W → W.Symbol → List W.Val → OnHost W W.Val
  pub stellar_asset_call : W.Symbol → List W.Val → OnHost W W.Val
