-- ===== src/Frame/Rollback.antt =====
-- What a frame leaves behind: `with_frame` pops what it pushes, and takes back the writes and marks
-- the events of a failing body.
use rs_stellar_contract_env.Prelude.{
  true, none, ◌≡◌, refl, ap, length, drop, arith, if◌then◌else◌, ◌==◌, leb, ◌⊎◌, inl, inr, ◌%◌, ◌^◌,
  Bool-cases,
}
use rs_stellar_contract_env.Error.{HostError, Result, ok, err, IsOk, fail, context, internal_error}
use rs_stellar_contract_env.Exec.{lift, ◌>>=◌, attempt}
use rs_stellar_contract_env.Exec.Leads.{Leads, Leads-bind}
use rs_stellar_contract_env.Metered.{Metered, asks}
use rs_stellar_contract_env.Budget.Charge.{default_host_depth_limit}
use rs_stellar_contract_env.Frame.Types.{
  World, Services, Host, OnHost, Context, Frame, RollbackPoint,
}
use rs_stellar_contract_env.Frame.Stack.{push_context, pop_context}
use rs_stellar_contract_env.Frame.Run.{if_failed, checked_exit, flush, run_frame, with_frame}
use rs_stellar_contract_env.Frame.Stays.{Extends, StaysWithin, Stays}
use rs_stellar_contract_env.Frame.Pushing.{
  IsRolledBack, IsRolledBack-refl, Start, Pushed, Ran, Flushed, Popped, Leads-push_context,
  Leads-attempt, Leads-flush, checked_exit_lem,
}
use rs_stellar_contract_env.Frame.Popping.{Leads-pop_failed, Leads-pop_done}

module _ {W : World} (svc : Services W) (h : Host W) where
  -- What is proved of a whole frame.
  abbrev Done : Result W.Val → Metered (Host W) → Type 0
  Done (ok v) s =
      (s.own.context_stack ≡ h.context_stack) × Extends h s.own × (svc.as_error v ≡ none)
  Done (err e) s = IsRolledBack h s.own

  Leads-exit :
      (res : Result W.Val) (c : Context W) (s : Metered (Host W))
      → Popped svc h res (ok c) s
      → Done res s
  Leads-exit (ok v) c s p = (p.1, p.2, p.3)
  Leads-exit (err e) c s p = p

  Popped-stack :
      (res : Result W.Val) (c : Context W) (s : Metered (Host W))
      → Popped svc h res (ok c) s
      → s.own.context_stack ≡ h.context_stack
  Popped-stack (ok v) c s p = p.1
  Popped-stack (err e) c s p = p.stack

  module _ (pops : (s : Metered W.AuthManager) → IsOk (svc.pop_frame none s).0) where
    Leads-pop :
        (rp : RollbackPoint W) (res : Result W.Val)
        → Leads
            (Flushed svc h rp (ok res))
            (pop_context svc (if_failed svc res rp))
            (Popped svc h res)
    Leads-pop rp (ok v) = λ s p. Leads-pop_done svc h pops rp v p.1 s p.0
    Leads-pop rp (err e) = Leads-pop_failed svc h rp

    Popped-err :
        (res : Result W.Val) (e : HostError) (s : Metered (Host W))
        → Popped svc h res (err e) s
        → IsRolledBack h s.own
    Popped-err (ok v) e s p = absurd p.0
    Popped-err (err x) e s p = p

    Leads-depth :
        (res : Result W.Val) (c : Context W)
        → Leads
            (Popped svc h res (ok c))
            (asks (λ t. length t.context_stack) >>= λ end_depth.
              if length h.context_stack == end_depth
              then lift res
              else lift (fail context internal_error))
            Done
    unfolding asks lift ◌>>=◌
    Leads-depth res c s p =
        let held : s.own.context_stack ≡ h.context_stack = Popped-stack res c s p in
        let same : (length h.context_stack == length s.own.context_stack) ≡ true =
          rw (held) (ground arith) in
        rw same (Leads-exit res c s p)

    Leads-run_frame :
        (frame : Frame W) (f : OnHost W W.Val)
        → Stays f
        → Leads (Start svc h) (run_frame svc frame f (length h.context_stack)) Done
    unfolding run_frame
    Leads-run_frame frame f stays =
        Leads-bind (Pushed svc h) Done
          (push_context svc (record { frame = frame; prng = none; storage = none })) _
          (Leads-push_context svc h _)
          (λ rp.
            Leads-bind (Ran svc h rp) Done (attempt f) _ (Leads-attempt svc h rp f stays)
              (λ ran.
                Leads-bind (Flushed svc h rp) Done (flush svc (checked_exit svc ran)) _
                  (λ s p.
                    Leads-flush svc h rp (checked_exit svc ran) (checked_exit_lem svc h ran) s p.1)
                  (λ res.
                    Leads-bind (Popped svc h res) Done (pop_context svc (if_failed svc res rp)) _
                      (Leads-pop rp res) (Leads-depth res) (Popped-err res))
                  (λ e s p. absurd p))
              (λ e s p. absurd p.0))
          (λ e s p. IsRolledBack-refl h s.own p.0 p.1 p.2)

module _ {W : World} (svc : Services W)
    (pops : (s : Metered W.AuthManager) → IsOk (svc.pop_frame none s).0) (frame : Frame W)
    (f : OnHost W W.Val) (stays : Stays f) (s : Metered (Host W)) where
  with_frame-Done : Done svc s.own (with_frame svc frame f s).0 (with_frame svc frame f s).1
  unfolding with_frame asks lift ◌>>=◌
  with_frame-Done =
      elim (Bool-cases (leb default_host_depth_limit (length s.own.context_stack % 2 ^ 32))) [
        | inl e ↦ rw e (IsRolledBack-refl s.own s.own refl refl refl)
        | inr e ↦ rw e (Leads-run_frame svc s.own pops frame f stays s (refl, refl, refl))
      ]

  rolled_back-Extends : (h h' : Host W) → IsRolledBack h h' → Extends h h'
  rolled_back-Extends h h' r = let (new, e, _) = r.events in (new, e)

  Done-stack :
      (r : Result W.Val) (t : Metered (Host W))
      → Done svc s.own r t
      → (t.own.context_stack ≡ s.own.context_stack) × Extends s.own t.own
  Done-stack (ok v) t d = (d.0, d.1)
  Done-stack (err e) t d = (d.stack, rolled_back-Extends s.own t.own d)

  Done-cases :
      (r : Result W.Val) (t : Metered (Host W))
      → Done svc s.own r t
      → ((v : W.Val) × (r ≡ ok v) × (svc.as_error v ≡ none))
        ⊎ (((e : HostError) × (r ≡ err e)) × IsRolledBack s.own t.own)
  Done-cases (ok v) t d = inl (v, refl, d.2)
  Done-cases (err e) t d = inr ((e, refl), d)

  -- Where popping a frame of the authorization manager without a rollback does not fail and the body
  -- leaves the contexts below its own as they are and its events after the earlier ones, a frame
  -- leaves the stack of contexts exactly as it was, whatever its result, and its events after the
  -- earlier ones: so it is such a body itself.
  pub with_frame-StaysWithin :
      StaysWithin s.own (with_frame svc frame f s).1.own
      × ((with_frame svc frame f s).1.own.context_stack ≡ s.own.context_stack)
  with_frame-StaysWithin =
      let (stack, extends) =
        Done-stack (with_frame svc frame f s).0 (with_frame svc frame f s).1 with_frame-Done in
      (record { below = ap (drop 1) stack; depth = ap length stack; extends = extends }, stack)

  -- Where popping a frame of the authorization manager without a rollback does not fail and the
  -- body leaves the contexts below its own as they are and its events after the earlier ones, a
  -- frame ends either with a value, which is not an error value even when the body returned one,
  -- or with an error. With an error, whatever made it, the entries of the storage and the stack
  -- are as before the frame, and the events recorded since, and no others, are marked as those
  -- of a failed call.
  pub with_frame_lem :
      let end = with_frame svc frame f s in
      ((v : W.Val) × (end.0 ≡ ok v) × (svc.as_error v ≡ none))
      ⊎ (((e : HostError) × (end.0 ≡ err e)) × IsRolledBack s.own end.1.own)
  with_frame_lem =
      Done-cases (with_frame svc frame f s).0 (with_frame svc frame f s).1 with_frame-Done
