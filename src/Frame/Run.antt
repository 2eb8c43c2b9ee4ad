-- ===== src/Frame/Run.antt =====
-- soroban-env-host/src/host/frame.rs: `with_frame`, which pushes a frame, runs a body in it and pops
-- it, with a rollback when the body failed.
use rs_stellar_contract_env.Prelude.{
  ℕ, Option, none, some, ◌%◌, ◌^◌, length, leb, ◌==◌, if◌then◌else◌,
}
use rs_stellar_contract_env.Error.{
  HostError, Result, ok, err, fail, context, exceeded_limit, invalid_action, internal_error,
  is_contract_type,
}
use rs_stellar_contract_env.Exec.{pure, lift, ◌>>=◌, ◌>>◌, attempt}
use rs_stellar_contract_env.Metered.{asks}
use rs_stellar_contract_env.Budget.Charge.{default_host_depth_limit}
use rs_stellar_contract_env.Frame.Types.{World, Services, OnHost, Frame, RollbackPoint}
use rs_stellar_contract_env.Frame.Stack.{push_context, pop_context}
use rs_stellar_contract_env.Frame.Instance.{persist_instance_storage}

module _ {W : World} (svc : Services W) where
  -- A value that is an error ends the frame with an error: its own where it is a contract's, and
  -- otherwise that of an illegal return.
  abbrev pub escalated : W.Val → Option HostError → Result W.Val
  escalated v none = ok v
  escalated v (some e) = if is_contract_type e then err e else fail context invalid_action

  abbrev pub checked_exit : Result W.Val → Result W.Val
  checked_exit (ok v) = escalated v (svc.as_error v)
  checked_exit (err e) = err e

  -- The instance storage is flushed if nothing failed, and a failure of that is the result.
  abbrev pub flushed : Result W.Val → Result (Unit {0}) → Result W.Val
  flushed res (ok _) = res
  flushed res (err e) = err e

  unfoldable pub flush : Result W.Val → OnHost W (Result W.Val)
  flush (ok v) = do r ← attempt (persist_instance_storage svc); pure (flushed (ok v) r)
  flush (err e) = pure (err e)

  -- The rollback point is used when the result is an error.
  abbrev pub if_failed : Result W.Val → RollbackPoint W → Option (RollbackPoint W)
  if_failed (ok v) rp = none
  if_failed (err e) rp = some rp

  unfoldable pub run_frame : Frame W → OnHost W W.Val → ℕ → OnHost W W.Val
  run_frame frame f start_depth = do
    rp ← push_context svc (record { frame = frame; prng = none; storage = none })
    ran ← attempt f
    res ← flush (checked_exit ran)
    pop_context svc (if_failed res rp)
    end_depth ← asks (λ h. length h.context_stack)
    if start_depth == end_depth then lift res else lift (fail context internal_error)

  -- The depth is compared as a `u32`.
  unfoldable pub with_frame : Frame W → OnHost W W.Val → OnHost W W.Val
  with_frame frame f = do
    start_depth ← asks (λ h. length h.context_stack)
    if leb default_host_depth_limit (start_depth % 2 ^ 32)
        then lift (fail context exceeded_limit)
        else run_frame frame f start_depth
