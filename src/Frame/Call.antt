-- ===== src/Frame/Call.antt =====
-- soroban-env-host/src/host/frame.rs: calling a function of a contract, with the check of re-entry.
use rs_stellar_contract_env.Prelude.{
  ℕ, zero, suc, Bool, true, false, Option, none, some, List, [], ◌∷◌, ◌==◌, ◌&&◌, if◌then◌else◌,
  length,
}
use rs_stellar_contract_env.Error.{Result, ok, fail, context, invalid_action}
use rs_stellar_contract_env.Exec.{pure, lift, ◌>>=◌, ◌>>◌}
use rs_stellar_contract_env.MeteredClone.{metered_clone, charge_bulk_init_cpy}
use rs_stellar_contract_env.Metered.{charged, asks}
use rs_stellar_contract_env.Frame.Types.{
  World, Services, OnHost, Context, ScContractInstance, ContractExecutable, wasm, stellar_asset,
  contract_vm, stellar_asset_contract,
}
use rs_stellar_contract_env.Frame.Stack.{contract_id}
use rs_stellar_contract_env.Frame.Instance.{
  contract_instance_ledger_key, retrieve_contract_instance_from_storage, retrieve_wasm_from_storage,
}
use rs_stellar_contract_env.Frame.Run.{with_frame}

pub data ContractReentryMode : Type 0 where
  prohibited self_allowed allowed : ContractReentryMode

-- `name.starts_with("__")`: 95 is the code of the underscore.
unfoldable pub starts_reserved : List ℕ → Bool
starts_reserved (a ∷ b ∷ _) = (a == 95) && (b == 95)
starts_reserved _ = false

-- The contracts of the frames that have one, from the top of the stack down.
unfoldable pub callers : {W : World} → List (Context W) → List W.Hash
unfolding contract_id
callers [] = []
callers (ctx ∷ stack) =
    let rest = callers stack in elim (contract_id ctx.frame) [ none ↦ rest | some id ↦ id ∷ rest ]

-- `iter.position(f)`
abbrev pub position_of : {A : Type 0} → (A → Bool) → List A → Option ℕ
position_of f [] = none
position_of f (x ∷ xs) =
    let rest = position_of f xs in
    if f x then some 0 else elim rest [ none ↦ none | some i ↦ some (suc i) ]

abbrev pub reentry_allowed : ContractReentryMode → Option ℕ → Bool
reentry_allowed mode none = true
reentry_allowed allowed (some _) = true
reentry_allowed self_allowed (some zero) = true
reentry_allowed self_allowed (some (suc _)) = false
reentry_allowed prohibited (some _) = false

module _ {W : World} (svc : Services W) where
  unfoldable pub check_reentry : ContractReentryMode → W.Hash → List (Context W) → Result (Unit {0})
  unfolding callers
  check_reentry mode id stack =
      if reentry_allowed mode (position_of (λ caller. svc.same_hash caller id) (callers stack))
      then ok tt
      else fail context invalid_action

  unfoldable pub check_reserved : Bool → W.Symbol → OnHost W (Unit {0})
  check_reserved true func = pure tt
  check_reserved false func = do
    name ← charged (svc.symbol_bytes func)
    if starts_reserved name then lift (fail context invalid_action) else pure tt

  abbrev pub run_executable :
      W.Hash → W.Symbol → List W.Val → ScContractInstance W → ContractExecutable W → OnHost W W.Val
  run_executable id func args instance (wasm wasm_hash) = do
    code ← retrieve_wasm_from_storage svc wasm_hash
    contract ← charged (metered_clone svc.hash id)
    vm ← svc.new_vm contract code
    with_frame svc (contract_vm vm func args instance []) (svc.invoke_function_raw vm func args)
  run_executable id func args instance stellar_asset = do
    contract ← charged (metered_clone svc.hash id)
    with_frame svc (stellar_asset_contract contract func args instance)
        (svc.stellar_asset_call func args)

  unfoldable pub call_contract_fn : W.Hash → W.Symbol → List W.Val → OnHost W W.Val
  call_contract_fn id func args = do
    key ← contract_instance_ledger_key svc id
    instance ← retrieve_contract_instance_from_storage svc key
    charged (charge_bulk_init_cpy svc.vec_size svc.val (length args))
    run_executable id func args instance instance.executable

  unfoldable pub call_n_internal :
      W.Hash → W.Symbol → List W.Val → ContractReentryMode → Bool → OnHost W W.Val
  call_n_internal id func args reentry_mode internal_host_call = do
    check_reserved internal_host_call func
    stack ← asks (λ h. h.context_stack)
    lift (check_reentry reentry_mode id stack)
    call_contract_fn id func args
