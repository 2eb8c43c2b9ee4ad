-- ===== src/Frame/Stack.antt =====
-- soroban-env-host/src/host/frame.rs: pushing and popping contexts, and access to the current one.
use rs_stellar_contract_env.Prelude.{Bool, Option, none, some, List, [], ◌∷◌, length, is_some}
use rs_stellar_contract_env.Error.{
  Result, ok, fail, ok_or, from_type_and_code, context, internal_error,
}
use rs_stellar_contract_env.Exec.{Exec, pure, lift, ◌>>=◌, ◌>>◌}
use rs_stellar_contract_env.Budget.Charge.{BudgetImpl}
use rs_stellar_contract_env.MeteredClone.{metered_clone, charge_bulk_init_cpy}
use rs_stellar_contract_env.Metered.{Metered, charged, asks, writes, within}
use rs_stellar_contract_env.Events.{rollback}
use rs_stellar_contract_env.Storage.Access.{Storage}
use rs_stellar_contract_env.Frame.Types.{
  World, Services, Host, OnHost, Context, Frame, RollbackPoint, ScContractInstance, contract_vm,
  host_function, stellar_asset_contract,
}

abbrev pub no_frame : {A : Type 0} → Result A
no_frame = fail context internal_error

module _ {W : World} where
  unfoldable pub contract_id : Frame W → Option W.Hash
  contract_id (contract_vm vm _ _ _ _) = some vm.contract_id
  contract_id (host_function _) = none
  contract_id (stellar_asset_contract id _ _ _) = some id

  unfoldable pub instance_of_frame : Frame W → Option (ScContractInstance W)
  instance_of_frame (contract_vm _ _ _ instance _) = some instance
  instance_of_frame (host_function _) = none
  instance_of_frame (stellar_asset_contract _ _ _ instance) = some instance

  unfoldable pub on_storage : {A : Type 0} → Exec (Metered (Storage W.Payload)) A → OnHost W A
  unfolding within
  on_storage = within (λ h. h.storage) (λ s h. record h { storage = s })

  unfoldable pub on_auth : {A : Type 0} → Exec (Metered W.AuthManager) A → OnHost W A
  unfolding within
  on_auth = within (λ h. h.authorization_manager) (λ a h. record h { authorization_manager = a })

  -- The top of the stack and what is left, the stack's `pop`.
  abbrev pub popped : List (Context W) → Option (Context W) × List (Context W)
  popped [] = (none, [])
  popped (ctx ∷ rest) = (some ctx, rest)

  -- A run on the top context of a stack, which is put back whatever the result.
  abbrev pub on_top :
      {A : Type 0}
      → Exec (Metered (Context W)) A
      → List (Context W)
      → BudgetImpl
      → Result A × List (Context W) × BudgetImpl
  on_top f [] b = (no_frame, [], b)
  on_top f (ctx ∷ rest) b =
      let (r, end) = f (record { own = ctx; funds = b }) in (r, end.own ∷ rest, end.funds)

  unfoldable pub with_current_context_mut : {A : Type 0} → Exec (Metered (Context W)) A → OnHost W A
  with_current_context_mut f s =
      let (r, stack, b) = on_top f s.own.context_stack s.funds in
      (r, record { own = record s.own { context_stack = stack }; funds = b })

  abbrev pub top_frame : List (Context W) → Option (Frame W)
  top_frame [] = none
  top_frame (ctx ∷ _) = some ctx.frame

  unfoldable pub with_current_frame_opt :
      {A : Type 0} → (Option (Frame W) → OnHost W A) → OnHost W A
  with_current_frame_opt f s = f (top_frame s.own.context_stack) s

  unfoldable pub with_current_frame : {A : Type 0} → (Frame W → OnHost W A) → OnHost W A
  with_current_frame f s = elim s.own.context_stack [ [] ↦ (no_frame, s) | ctx ∷ _ ↦ f ctx.frame s ]

  unfoldable pub has_frame : OnHost W Bool
  has_frame = with_current_frame_opt (λ opt. pure (is_some opt))

  unfoldable pub pop_stack : OnHost W (Option (Context W))
  pop_stack s =
      let (ctx, rest) = popped s.own.context_stack in
      (ok ctx, record s { own = record s.own { context_stack = rest } })

  -- What a rollback point takes back.
  abbrev pub restored : RollbackPoint W → Host W → Host W
  unfolding rollback
  restored rp h = record h {
    storage = record h.storage { map = rp.storage };
    events = rollback rp.events h.events;
  }

  unfoldable pub roll_back : Option (RollbackPoint W) → OnHost W (Option W.AuthSnapshot)
  unfolding writes
  roll_back (some rp) = do writes (restored rp); pure (some rp.auth)
  roll_back none = pure none

  module _ (svc : Services W) where
    unfoldable pub push_context : Context W → OnHost W (RollbackPoint W)
    push_context ctx = do
      auth ← on_auth (svc.push_frame ctx.frame)
      map ← asks (λ h. h.storage.map)
      storage ← charged (metered_clone svc.storage_map map)
      events ← asks (λ h. length h.events.vec)
      charged (charge_bulk_init_cpy svc.vec_size svc.context 1)
      writes (λ h. record h { context_stack = ctx ∷ h.context_stack })
      pure (record { storage = storage; events = events; auth = auth })

    -- As built without the feature `recording_auth`, which emulates authentication after the last pop.
    unfoldable pub pop_context : Option (RollbackPoint W) → OnHost W (Context W)
    pop_context orp = do
      ctx ← pop_stack
      auth_snapshot ← roll_back orp
      on_auth (svc.pop_frame auth_snapshot)
      lift (ok_or ctx (from_type_and_code context internal_error))

    abbrev pub cloned_id : Option W.Hash → OnHost W (Option W.Hash)
    cloned_id none = pure none
    cloned_id (some id) = do new ← charged (metered_clone svc.hash id); pure (some new)

    abbrev pub id_of : Option (Frame W) → Option W.Hash
    unfolding contract_id
    id_of none = none
    id_of (some frame) = contract_id frame

    unfoldable pub get_current_contract_id_opt_internal : OnHost W (Option W.Hash)
    get_current_contract_id_opt_internal =
        with_current_frame_opt (λ opt_frame. cloned_id (id_of opt_frame))

    unfoldable pub get_current_contract_id_internal : OnHost W W.Hash
    get_current_contract_id_internal = do
      id ← get_current_contract_id_opt_internal
      lift (ok_or id (from_type_and_code context internal_error))

    -- The generator of the context, or one made from the base generator.
    unfoldable pub base_sub_prng : OnHost W W.Prng
    base_sub_prng s = elim s.own.base_prng [
      | none ↦ (no_frame, s)
      | some base ↦
          let (r, end) = svc.sub_prng (record { own = base; funds = s.funds }) in
          (r, record { own = record s.own { base_prng = some end.own }; funds = end.funds })
    ]

    abbrev pub current_or_new : Option W.Prng → OnHost W W.Prng
    current_or_new (some prng) = pure prng
    current_or_new none = base_sub_prng

    unfoldable pub take_prng : Exec (Metered (Context W)) (Option W.Prng)
    take_prng s = (ok s.own.prng, record s { own = record s.own { prng = none } })

    unfoldable pub put_prng : W.Prng → Exec (Metered (Context W)) (Unit {0})
    put_prng prng s = elim s.own.prng [
      | some _ ↦ (no_frame, s)
      | none ↦ (ok tt, record s { own = record s.own { prng = some prng } })
    ]

    -- What the callback returns, an error too, with the generator as it left it.
    abbrev pub Callback : Type 0 → Type 0
    Callback A = W.Prng → Metered (Host W) → (Result A × W.Prng) × Metered (Host W)

    unfoldable pub call_back : {A : Type 0} → Callback A → W.Prng → OnHost W (Result A × W.Prng)
    call_back f prng s = let (end, s') = f prng s in (ok end, s')

    unfoldable pub with_current_prng : {A : Type 0} → Callback A → OnHost W A
    with_current_prng f = do
      curr_prng_opt ← with_current_context_mut take_prng
      curr_prng ← current_or_new curr_prng_opt
      end ← call_back f curr_prng
      with_current_context_mut (put_prng end.1)
      lift end.0
