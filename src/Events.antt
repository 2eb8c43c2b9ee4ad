-- ===== src/Events.antt =====
-- soroban-env-host/src/events/internal.rs: the buffer of events, in the order in which they are
-- recorded. What an event carries is a type parameter.
use rs_stellar_contract_env.Prelude.{
  ℕ, zero, suc, Bool, true, false, List, [], ◌∷◌, ◌++◌, ◌≡◌, refl, ap, length,
}
use rs_stellar_contract_env.Error.{Result, ok, err}
use rs_stellar_contract_env.Exec.{Exec, ◌>>◌}
use rs_stellar_contract_env.Budget.Shadow.{enter_shadow_mode}
use rs_stellar_contract_env.MeteredClone.{MeteredClone, charge_bulk_init_cpy}
use rs_stellar_contract_env.Metered.{Metered, charged, writes}

pub data InternalEvent (C D : Type 0) : Type 0 where
  contract : C → InternalEvent C D
  diagnostic : D → InternalEvent C D

pub data EventError : Type 0 where
  from_failed_call from_successful_call : EventError

pub record InternalEventsBuffer (C D : Type 0) : Type 0 where
  pub vec : List (InternalEvent C D × EventError)

-- The body, unless the check failed.
unfoldable pub run_checked :
    {T : Type 0} → Result (Unit {0}) → Exec (Metered T) (Unit {0}) → Exec (Metered T) (Unit {0})
run_checked (ok _) f s = f s
run_checked (err e) f s = (err e, s)

-- `Host::with_debug_mode`: nothing, unless diagnostics are on; then the body in shadow mode, whose
-- result is dropped.
unfoldable pub with_debug_mode :
    {T : Type 0} → Bool → Exec (Metered T) (Unit {0}) → Exec (Metered T) (Unit {0})
unfolding enter_shadow_mode
with_debug_mode false f s = (ok tt, s)
with_debug_mode true f s =
    let (checked, b) = enter_shadow_mode s.funds in
    let (dropped, s') = run_checked checked f (record s { funds = b }) in
    (ok tt, record s' { funds = record s'.funds { is_in_shadow_mode = s.funds.is_in_shadow_mode } })

-- The events from the position `n` on, marked as those of a failed call.
abbrev pub mark_failed : {E : Type 0} → ℕ → List (E × EventError) → List (E × EventError)
mark_failed n [] = []
mark_failed zero ((e, _) ∷ vec) = (e, from_failed_call) ∷ mark_failed zero vec
mark_failed (suc n) (e ∷ vec) = e ∷ mark_failed n vec

module _ {C D : Type 0} where
  -- `InternalEventsBuffer::rollback`
  unfoldable pub rollback : ℕ → InternalEventsBuffer C D → InternalEventsBuffer C D
  rollback events self = record { vec = mark_failed events self.vec }

  unfoldable pub push_event :
      ℕ
      → MeteredClone (InternalEvent C D × EventError)
      → InternalEvent C D
      → Exec (Metered (InternalEventsBuffer C D)) (Unit {0})
  push_event vec_size elt e = do
    charged (charge_bulk_init_cpy vec_size elt 1)
    writes (λ self. record { vec = self.vec ++ ((e, from_successful_call) ∷ []) })

  -- `InternalEventsBuffer::record`
  unfoldable pub record_event :
      ℕ
      → MeteredClone (InternalEvent C D × EventError)
      → Bool
      → InternalEvent C D
      → Exec (Metered (InternalEventsBuffer C D)) (Unit {0})
  record_event vec_size elt debug (InternalEvent.contract c) =
      push_event vec_size elt (InternalEvent.contract c)
  record_event vec_size elt debug (InternalEvent.diagnostic d) =
      with_debug_mode debug (push_event vec_size elt (InternalEvent.diagnostic d))

pub mark_failed-append :
    {E : Type 0} (before after : List (E × EventError))
    → mark_failed (length before) (before ++ after) ≡ before ++ mark_failed 0 after
mark_failed-append [] after = refl
mark_failed-append (e ∷ before) after = ap (λ v. e ∷ v) (mark_failed-append before after)
