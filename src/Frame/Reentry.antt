-- ===== src/Frame/Reentry.antt =====
-- Which calls the check of re-entry refuses, and that it refuses them before anything is done.
use rs_stellar_contract_env.Prelude.{
  ap, arith, ℕ, zero, suc, Bool, true, false, Option, none, some, List, ◌≡◌, refl, ◌⊎◌, ◌↔◌, inl,
  inr, Bool-cases, if◌then◌else◌,
}
use rs_stellar_contract_env.Error.{HostError, Result, ok, err, fail, context, invalid_action}
use rs_stellar_contract_env.Exec.{pure, lift}
use rs_stellar_contract_env.Exec.Leads.{Leads, Leads-bind}
use rs_stellar_contract_env.Metered.{Metered, charged, asks}
use rs_stellar_contract_env.Frame.Types.{World, Services, Host, Context}
use rs_stellar_contract_env.Frame.Call.{
  ContractReentryMode, prohibited, self_allowed, allowed, callers, position_of, reentry_allowed,
  check_reentry, check_reserved, call_n_internal, starts_reserved,
}
use rs_stellar_contract_env.Frame.Running.{
  NotRunning, NearestRunning, position_none, none_position, position_zero, zero_position,
  Absent-callers_iff, Nearest-callers_iff,
}

-- A call is acceptable in the mode that allows everything, where no frame of the stack, which is
-- written from its top down, runs the called contract, and, where a contract may call itself, if
-- the called contract is the nearest that runs.
module _ {W : World} (svc : Services W) where
  abbrev pub Acceptable : ContractReentryMode → W.Hash → List (Context W) → Type 0
  Acceptable mode id stack =
      (mode ≡ allowed)
      ⊎ NotRunning (λ caller. svc.same_hash caller id) stack
      ⊎ ((mode ≡ self_allowed) × NearestRunning (λ caller. svc.same_hash caller id) stack)

  reentry_allowed_iff :
      (mode : ContractReentryMode) (o : Option ℕ)
      → (reentry_allowed mode o ≡ true)
        ↔ ((mode ≡ allowed) ⊎ (o ≡ none) ⊎ ((mode ≡ self_allowed) × (o ≡ some 0)))
  reentry_allowed_iff mode none = (λ e. inr (inl refl), λ h. refl)
  reentry_allowed_iff allowed (some n) = (λ e. inl refl, λ h. refl)
  reentry_allowed_iff self_allowed (some zero) = (λ e. inr (inr (refl, refl)), λ h. refl)
  reentry_allowed_iff self_allowed (some (suc n)) = (λ e. absurd (cc e), λ h. ground arith)
  reentry_allowed_iff prohibited (some n) = (λ e. absurd (cc e), λ h. ground arith)

  abbrev checked : Bool → Result (Unit {0})
  checked b = if b then ok tt else fail context invalid_action

  checked_iff : (b : Bool) → (checked b ≡ ok tt) ↔ (b ≡ true)
  checked_iff true = (λ e. refl, λ e. refl)
  checked_iff false = (λ e. absurd (cc e), λ e. absurd (cc e))

  Acceptable-iff :
      (mode : ContractReentryMode) (id : W.Hash) (stack : List (Context W))
      → (reentry_allowed mode (position_of (λ caller. svc.same_hash caller id) (callers stack))
          ≡ true)
        ↔ Acceptable mode id stack
  Acceptable-iff mode id stack =
      let same : W.Hash → Bool = λ caller. svc.same_hash caller id in
      let at = reentry_allowed_iff mode (position_of same (callers stack)) in
      (
        λ e. elim (at.0 e) [
          | inl a ↦ inl a
          | inr (inl b) ↦
              inr (inl ((Absent-callers_iff same stack).0 (position_none same (callers stack) b)))
          | inr (inr c) ↦ inr (
              inr
                (c.0, (Nearest-callers_iff same stack).0 (position_zero same (callers stack) c.1)))
        ],
        λ h. elim h [
          | inl a ↦ at.1 (inl a)
          | inr (inl b) ↦
              at.1 (
                inr
                  (inl (none_position same (callers stack) ((Absent-callers_iff same stack).1 b))))
          | inr (inr c) ↦ at.1 (
              inr (
                inr (
                  c.0,
                  zero_position same (callers stack) ((Nearest-callers_iff same stack).1 c.1),
                )))
        ],
      )

  -- The check of re-entry passes exactly for the acceptable calls: in the mode that allows every
  -- re-entry, where no frame of the stack runs the called contract, or where the mode lets a contract
  -- call itself and, of the frames that run a contract, the one nearest to the top runs the called
  -- one.
  pub check_reentry_iff :
      (mode : ContractReentryMode) (id : W.Hash) (stack : List (Context W))
      → (check_reentry svc mode id stack ≡ ok tt) ↔ Acceptable mode id stack
  unfolding check_reentry
  check_reentry_iff mode id stack =
      let passes =
        checked_iff (
          reentry_allowed mode (position_of (λ caller. svc.same_hash caller id) (callers stack))) in
      let fits = Acceptable-iff mode id stack in
      (λ e. fits.0 (passes.0 e), λ h. passes.1 (fits.1 h))

  check_reentry_refused :
      (mode : ContractReentryMode) (id : W.Hash) (stack : List (Context W))
      → ¬ Acceptable mode id stack
      → check_reentry svc mode id stack ≡ fail context invalid_action
  unfolding check_reentry
  check_reentry_refused mode id stack n =
      elim (Bool-cases
        (reentry_allowed mode (position_of (λ caller. svc.same_hash caller id) (callers stack)))) [
          | inl e ↦ absurd (n ((Acceptable-iff mode id stack).0 e))
          | inr e ↦ rw e
        ]

  abbrev Untouched : Host W → {A : Type 0} → Result A → Metered (Host W) → Type 0
  Untouched h r s = s.own ≡ h

  abbrev Refused : Host W → {A : Type 0} → Result A → Metered (Host W) → Type 0
  Refused h {A} r s = ((e : HostError) × (r ≡ err e)) × (s.own ≡ h)

  check_reserved-Untouched :
      (h : Host W) (internal : Bool) (func : W.Symbol)
      → Leads (λ s. s.own ≡ h) (check_reserved svc internal func) (Untouched h)
  unfolding check_reserved pure lift charged
  check_reserved-Untouched h true func = λ s p. p
  check_reserved-Untouched h false func =
      Leads-bind (Untouched h) (Untouched h) (charged (svc.symbol_bytes func)) _ (λ s p. p)
        (λ name. elim (Bool-cases (starts_reserved name)) [
          | inl e ↦ λ s p. rw e p
          | inr e ↦ λ s p. rw e p
        ])
        (λ e s p. p)

  -- A call whose re-entry is not acceptable fails, and all of the host but its budget is as before.
  pub call_n_internal_refused :
      (id : W.Hash) (func : W.Symbol) (args : List W.Val) (mode : ContractReentryMode)
      (internal : Bool) (s : Metered (Host W))
      → ¬ Acceptable mode id s.own.context_stack
      → let end = call_n_internal svc id func args mode internal s in
        ((e : HostError) × (end.0 ≡ err e)) × (end.1.own ≡ s.own)
  unfolding call_n_internal asks lift
  call_n_internal_refused id func args mode internal s n =
      Leads-bind (Untouched s.own) (Refused s.own) (check_reserved svc internal func) _
        (check_reserved-Untouched s.own internal func)
        (λ u.
          Leads-bind (λ r t. (r ≡ ok s.own.context_stack) × (t.own ≡ s.own)) (Refused s.own)
            (asks (λ h. h.context_stack)) _ (λ t p. (ap (λ h. ok h.context_stack) p, p))
            (λ stack.
              Leads-bind (λ r t. (r ≡ fail context invalid_action) × (t.own ≡ s.own))
                (Refused s.own) (lift (check_reentry svc mode id stack)) _
                (λ t p.
                  let same : stack ≡ s.own.context_stack = cc p.0 in
                  (rw same (check_reentry_refused mode id s.own.context_stack n), p.1))
                (λ u t p. absurd (cc p.0)) (λ e t p. ((e, refl), p.1)))
            (λ e t p. absurd (cc p.0)))
        (λ e t p. ((e, refl), p)) s refl
