-- ===== src/Frame/Pushing.antt =====
-- The first half of `with_frame`: the push, the body and the flush of the instance storage.
use rs_stellar_contract_env.Prelude.{
  ℕ, suc, Option, none, some, List, [], ◌∷◌, ◌++◌, ◌≡◌, refl, ◌∙◌, sym, ap, length, drop,
  append-nil, arith, inl, inr, Bool-cases,
}
use rs_stellar_contract_env.Error.{HostError, Result, ok, err, IsOk, is_contract_type}
use rs_stellar_contract_env.Exec.{pure, attempt}
use rs_stellar_contract_env.Exec.Leads.{Leads, Leads-bind}
use rs_stellar_contract_env.Metered.{Metered, charged, asks, writes}
use rs_stellar_contract_env.MeteredClone.{
  MeteredClone, metered_clone, charge_shallow_copy, charge_bulk_init_cpy,
}
use rs_stellar_contract_env.Events.{InternalEvent, EventError, from_failed_call}
use rs_stellar_contract_env.Budget.Charge.{BudgetImpl}
use rs_stellar_contract_env.Frame.Types.{World, Services, Host, OnHost, Context, RollbackPoint}
use rs_stellar_contract_env.Frame.Stack.{on_auth, push_context}
use rs_stellar_contract_env.Frame.Instance.{persist_instance_storage}
use rs_stellar_contract_env.Frame.Run.{flushed, escalated, checked_exit, flush}
use rs_stellar_contract_env.Frame.Stays.{
  Extends, StaysWithin, Stays, Extends-refl, Extends-trans, Stays-persist,
}

-- What a clone gives is what it was made from.
abbrev pub Cloned : {A : Type 0} → A → Result A → BudgetImpl → Type 0
Cloned {A} x r b = (y : A) → r ≡ ok y → y ≡ x

metered_clone_same :
    {A : Type 0} (c : MeteredClone A) (x : A) → Leads (λ b. Unit {0}) (metered_clone c x) (Cloned x)
unfolding metered_clone pure
metered_clone_same c x =
    Leads-bind (λ r b. Unit {0}) (Cloned x) (charge_shallow_copy c 1) _ (λ s h. tt)
      (λ a.
        Leads-bind (λ r b. Unit {0}) (Cloned x) (c.charge_for_substructure x) _ (λ s h. tt)
          (λ a s h y e. cc e) (λ e s h y f. absurd (cc f)))
      (λ e s h y f. absurd (cc f))

-- Every event is marked as one of a failed call.
abbrev pub AllFailed : {E : Type 0} → List (E × EventError) → Type 0
AllFailed [] = Unit
AllFailed ((_, mark) ∷ vec) = (mark ≡ from_failed_call) × AllFailed vec

-- The contexts and the entries of the host are as they were, its events are the earlier ones as
-- they were and others after them, and every one of those is marked as one of a failed call.
pub record IsRolledBack {W : World} (h h' : Host W) : Type 0 where
  pub stack : h'.context_stack ≡ h.context_stack
  pub map : h'.storage.map ≡ h.storage.map
  pub events :
      (new : List (InternalEvent W.ContractEvent W.DiagnosticEvent × EventError)) × (h'.events.vec
        ≡ h.events.vec ++ new)
      × AllFailed new

module _ {W : World} where
  pub IsRolledBack-refl :
      (h h' : Host W)
      → h'.context_stack ≡ h.context_stack
      → h'.storage ≡ h.storage
      → h'.events ≡ h.events
      → IsRolledBack h h'
  IsRolledBack-refl h h' c s e = record {
    stack = c;
    map = ap (λ t. t.map) s;
    events = ([], ap (λ v. v.vec) e ∙ sym (append-nil h.events.vec), tt);
  }

  -- What a rollback point remembers.
  abbrev pub Remembers : Host W → RollbackPoint W → Type 0
  Remembers h rp = (rp.storage ≡ h.storage.map) × (rp.events ≡ length h.events.vec)

  -- A frame is on top of the stack that `h` had, and a rollback gives back what `h` had.
  pub record Running (h : Host W) (rp : RollbackPoint W) (h' : Host W) : Type 0 where
    pub below : drop 1 h'.context_stack ≡ h.context_stack
    pub depth : length h'.context_stack ≡ suc (length h.context_stack)
    pub extends : Extends h h'
    pub remembers : Remembers h rp

  pub Running-within :
      (h : Host W) (rp : RollbackPoint W) (a b : Host W)
      → Running h rp a
      → StaysWithin a b
      → Running h rp b
  Running-within h rp a b r w = record {
    below = w.below ∙ r.below;
    depth = w.depth ∙ r.depth;
    extends = Extends-trans h a b r.extends w.extends;
    remembers = r.remembers;
  }

  module _ (svc : Services W) (h : Host W) where
    -- The state in which a push starts, and what its first steps leave.
    abbrev pub Unpushed : Host W → Type 0
    Unpushed h' =
        (h'.context_stack ≡ h.context_stack) × (h'.storage ≡ h.storage) × (h'.events ≡ h.events)

    abbrev pub Pushed : Result (RollbackPoint W) → Metered (Host W) → Type 0
    Pushed (ok rp) s = Running h rp s.own
    Pushed (err e) s = Unpushed s.own

    abbrev pub Start : Metered (Host W) → Type 0
    Start s = Unpushed s.own

    pub Leads-push_context : (ctx : Context W) → Leads Start (push_context svc ctx) Pushed
    unfolding push_context on_auth asks charged writes pure
    Leads-push_context ctx =
        Leads-bind (λ r s. Start s) Pushed (on_auth (svc.push_frame ctx.frame)) _ (λ s p. p)
          (λ auth.
            Leads-bind (λ r s. Start s × ((m : _) → r ≡ ok m → m ≡ h.storage.map)) Pushed
              (asks (λ t. t.storage.map)) _ (λ s p. (p, λ m e. cc (e, p.1)))
              (λ map.
                Leads-bind (λ r s. Start s × ((m : _) → r ≡ ok m → m ≡ h.storage.map)) Pushed
                  (charged (metered_clone svc.storage_map map)) _
                  (λ s p. (
                    p.0,
                    λ m e. metered_clone_same svc.storage_map map s.funds tt m e ∙ p.1 map refl,
                  ))
                  (λ held.
                    Leads-bind
                      (λ r s.
                        Start s
                        × (held ≡ h.storage.map)
                        × ((n : ℕ) → r ≡ ok n → n ≡ length h.events.vec))
                      Pushed (asks (λ t. length t.events.vec)) _
                      (λ s p. (p.0, p.1 held refl, λ n e. cc (e, p.0.2)))
                      (λ n.
                        Leads-bind
                          (λ r s. Start s × (held ≡ h.storage.map) × (n ≡ length h.events.vec))
                          Pushed (charged (charge_bulk_init_cpy svc.vec_size svc.context 1)) _
                          (λ s p. (p.0, p.1, p.2 n refl))
                          (λ u.
                            Leads-bind
                              (λ r s.
                                IsOk r
                                × Running h (record { storage = held; events = n; auth = auth })
                                    s.own)
                              Pushed
                              (writes (λ t. record t { context_stack = ctx ∷ t.context_stack })) _
                              (λ s p. (
                                tt,
                                record {
                                  below = p.0.0;
                                  depth = ap (λ l. suc (length l)) p.0.0;
                                  extends = Extends-refl h s.own p.0.2;
                                  remembers = (p.1, p.2);
                                },
                              ))
                              (λ u s p. p.1) (λ e s p. absurd p.0))
                          (λ e s p. p.0))
                      (λ e s p. p.0))
                  (λ e s p. p.0))
              (λ e s p. p.0))
          (λ e s p. p)

    abbrev pub Ran : RollbackPoint W → {A : Type 0} → Result A → Metered (Host W) → Type 0
    Ran rp r s = IsOk r × Running h rp s.own

    pub Leads-attempt :
        {A : Type 0} (rp : RollbackPoint W) (f : OnHost W A)
        → Stays f
        → Leads (λ s. Running h rp s.own) (attempt f) (Ran rp)
    unfolding attempt
    Leads-attempt rp f w s r = (tt, Running-within h rp s.own (f s).1.own r (w s))

    -- A value that the frame ends with is not an error.
    abbrev pub Flushed : RollbackPoint W → Result (Result W.Val) → Metered (Host W) → Type 0
    Flushed rp (ok (ok v)) s = Running h rp s.own × (svc.as_error v ≡ none)
    Flushed rp (ok (err e)) s = Running h rp s.own
    Flushed rp (err e) s = ⊥

    escalated_lem :
        (v w : W.Val) (o : Option HostError)
        → svc.as_error v ≡ o
        → escalated svc v o ≡ ok w
        → svc.as_error w ≡ none
    escalated_lem v w none e f = cc (e, f)
    escalated_lem v w (some x) e f = elim (Bool-cases (is_contract_type x)) [
      | inl b ↦ ground arith
      | inr b ↦ ground arith
    ]

    pub checked_exit_lem :
        (r : Result W.Val) (w : W.Val) → checked_exit svc r ≡ ok w → svc.as_error w ≡ none
    checked_exit_lem (ok v) w e = escalated_lem v w (svc.as_error v) refl e
    checked_exit_lem (err x) w e = absurd (cc e)

    Flushed-flushed :
        (rp : RollbackPoint W) (v : W.Val) (a : Result (Unit {0})) (s : Metered (Host W))
        → Running h rp s.own
        → svc.as_error v ≡ none
        → Flushed rp (ok (flushed svc (ok v) a)) s
    Flushed-flushed rp v (ok u) s r e = (r, e)
    Flushed-flushed rp v (err x) s r e = r

    pub Leads-flush :
        (rp : RollbackPoint W) (res : Result W.Val)
        → ((w : W.Val) → res ≡ ok w → svc.as_error w ≡ none)
        → Leads (λ s. Running h rp s.own) (flush svc res) (Flushed rp)
    unfolding flush pure
    Leads-flush rp (ok v) n =
        Leads-bind (Ran rp) (Flushed rp) (attempt (persist_instance_storage svc)) _
          (Leads-attempt rp (persist_instance_storage svc) (Stays-persist svc))
          (λ a s p. Flushed-flushed rp v a s p.1 (n v refl)) (λ e s p. p.0)
    Leads-flush rp (err e) n = λ s r. r

    -- After the pop, by the result with which the frame ends.
    abbrev pub Popped : Result W.Val → Result (Context W) → Metered (Host W) → Type 0
    Popped (ok v) r s =
        IsOk r × (s.own.context_stack ≡ h.context_stack) × Extends h s.own × (svc.as_error v ≡ none)
    Popped (err e) r s = IsRolledBack h s.own
