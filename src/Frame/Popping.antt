-- ===== src/Frame/Popping.antt =====
-- The last step of `with_frame`: the pop of the context, with or without a rollback.
use rs_stellar_contract_env.Prelude.{
  ℕ, suc, Option, none, some, List, [], ◌∷◌, ◌++◌, ◌≡◌, refl, ◌∙◌, ap, length, drop, arith,
}
use rs_stellar_contract_env.Error.{Result, ok, IsOk}
use rs_stellar_contract_env.Exec.{pure, lift, ◌>>=◌}
use rs_stellar_contract_env.Exec.Leads.{Leads, Leads-bind}
use rs_stellar_contract_env.Metered.{Metered, writes}
use rs_stellar_contract_env.Events.{EventError, mark_failed, mark_failed-append, rollback}
use rs_stellar_contract_env.Frame.Types.{World, Services, Host, Context, RollbackPoint}
use rs_stellar_contract_env.Frame.Stack.{popped, on_auth, pop_stack, roll_back, pop_context}
use rs_stellar_contract_env.Frame.Stays.{Extends}
use rs_stellar_contract_env.Frame.Pushing.{Remembers, Running, AllFailed, IsRolledBack, Popped}

module _ {W : World} (svc : Services W) (h : Host W) where
  popped-drop : (stack : List (Context W)) → (popped stack).1 ≡ drop 1 stack
  popped-drop [] = refl
  popped-drop (ctx ∷ rest) = refl

  popped-some :
      (stack : List (Context W)) (n : ℕ)
      → length stack ≡ suc n
      → (c : Context W) × ((popped stack).0 ≡ some c)
  popped-some [] n e = absurd (omega arith)
  popped-some (ctx ∷ rest) n e = (ctx, refl)

  -- After the pop of the stack.
  abbrev Unstacked : RollbackPoint W → Result (Option (Context W)) → Metered (Host W) → Type 0
  Unstacked rp r s =
      ((c : Context W) × (r ≡ ok (some c)))
      × (s.own.context_stack ≡ h.context_stack)
      × Extends h s.own
      × Remembers h rp

  Leads-pop_stack :
      (rp : RollbackPoint W) → Leads (λ s. Running h rp s.own) pop_stack (Unstacked rp)
  unfolding pop_stack
  Leads-pop_stack rp s r =
      let (c, e) = popped-some s.own.context_stack (length h.context_stack) r.depth in
      ((c, ap ok e), popped-drop s.own.context_stack ∙ r.below, r.extends, r.remembers)

  mark_failed-AllFailed : {E : Type 0} (vec : List (E × EventError)) → AllFailed (mark_failed 0 vec)
  mark_failed-AllFailed [] = tt
  mark_failed-AllFailed ((e, mark) ∷ vec) = (refl, mark_failed-AllFailed vec)

  Leads-roll_back :
      (rp : RollbackPoint W) (r : Result (Option (Context W)))
      → Leads (Unstacked rp r) (roll_back (some rp)) (λ r s. IsRolledBack h s.own)
  unfolding roll_back writes pure rollback ◌>>=◌
  Leads-roll_back rp r s p =
      let (new, e) = p.2 in
      let at_end : mark_failed rp.events s.own.events.vec
          ≡ mark_failed (length h.events.vec) (h.events.vec ++ new) =
        ap (λ n. mark_failed n s.own.events.vec) p.3.1 ∙ ap (mark_failed (length h.events.vec)) e in
      record {
        stack = p.1;
        map = p.3.0;
        events = (
          mark_failed 0 new,
          at_end ∙ mark_failed-append h.events.vec new,
          mark_failed-AllFailed new,
        );
      }

  pub Leads-pop_failed :
      (rp : RollbackPoint W)
      → Leads (λ s. Running h rp s.own) (pop_context svc (some rp)) (λ r s. IsRolledBack h s.own)
  unfolding pop_context on_auth lift
  Leads-pop_failed rp =
      Leads-bind (Unstacked rp) (λ r s. IsRolledBack h s.own) pop_stack _ (Leads-pop_stack rp)
        (λ ctx.
          Leads-bind (λ r s. IsRolledBack h s.own) (λ r s. IsRolledBack h s.own)
            (roll_back (some rp)) _ (Leads-roll_back rp (ok ctx))
            (λ snap.
              Leads-bind (λ r s. IsRolledBack h s.own) (λ r s. IsRolledBack h s.own)
                (on_auth (svc.pop_frame snap)) _
                (λ s p. record { stack = p.stack; map = p.map; events = p.events }) (λ u s p. p)
                (λ e s p. p))
            (λ e s p. p))
        (λ e s p. absurd (cc p.0.1))

  pub Leads-pop_done :
      ((s : Metered W.AuthManager) → IsOk (svc.pop_frame none s).0)
      → (rp : RollbackPoint W) (v : W.Val) → svc.as_error v ≡ none
      → Leads (λ s. Running h rp s.own) (pop_context svc none) (Popped svc h (ok v))
  unfolding pop_context roll_back pure on_auth lift
  Leads-pop_done pops rp v noerr =
      Leads-bind (Unstacked rp) (Popped svc h (ok v)) pop_stack _ (Leads-pop_stack rp)
        (λ ctx.
          Leads-bind (λ r s. (r ≡ ok none) × Unstacked rp (ok ctx) s) (Popped svc h (ok v))
            (roll_back none) _ (λ s p. (refl, p))
            (λ snap.
              Leads-bind (λ r s. IsOk r × Unstacked rp (ok ctx) s) (Popped svc h (ok v))
                (on_auth (svc.pop_frame snap)) _
                (λ s p. let none_held : snap ≡ none = cc p.0 in (rw none_held (pops _), p.1))
                (λ u s p.
                  let (c, e) = p.1.0 in
                  let held : ctx ≡ some c = cc e in (rw held tt, p.1.1, p.1.2, noerr))
                (λ e s p. absurd p.0))
            (λ e s p. absurd (cc p.0)))
        (λ e s p. absurd (cc p.0.1))
