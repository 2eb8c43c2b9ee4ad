-- ===== src/Metered.antt =====
-- Methods of a component that charge the host's shared budget: the component's own state stands
-- beside the budget's.
use mathlib.Core.Path.{subst}
use rs_stellar_contract_env.Prelude.{◌≡◌, refl, sym, ◌⊎◌, inl, inr}
use rs_stellar_contract_env.Error.{HostError, Result, ok, err, FailsOnBudget}
use rs_stellar_contract_env.Exec.{Exec, zoom, lift, ◌>>=◌, continue}
use rs_stellar_contract_env.Exec.Computes.{Computes}
use rs_stellar_contract_env.Budget.Charge.{BudgetImpl}
use rs_stellar_contract_env.Budget.Charge.Free.{IsFree}

pub record Metered (T : Type 0) : Type 0 where
  pub own : T
  pub funds : BudgetImpl

module _ {T A : Type 0} where
  -- A call that is given the budget alone.
  unfoldable pub charged : Exec BudgetImpl A → Exec (Metered T) A
  unfolding zoom
  charged = zoom (λ s. s.funds) (λ b s. record s { funds = b })

  -- A read of the component's state.
  unfoldable pub asks : (T → A) → Exec (Metered T) A
  asks f s = (ok (f s.own), s)

  -- From the state `t`, whatever the budget, `m` gives `r` and leaves `u`, unless the budget stops
  -- it; a free budget does not stop it and stays free.
  pub record Runs (m : Exec (Metered T) A) (t : T) (r : Result A) (u : T) : Type 0 where
    pub agrees :
        (b : BudgetImpl)
        → let end = m (record { own = t; funds = b }) in
          ((end.0 ≡ r) × (end.1.own ≡ u)) ⊎ FailsOnBudget end.0
    pub total :
        (b : BudgetImpl)
        → IsFree b
        → let end = m (record { own = t; funds = b }) in
          (end.0 ≡ r) × (end.1.own ≡ u) × IsFree end.1.funds

  pub Runs-charged :
      (m : Exec BudgetImpl A) (r : Result A) (t : T) → Computes IsFree m r → Runs (charged m) t r t
  unfolding charged
  Runs-charged m r t c = record {
    agrees = λ b. elim (c.agrees b) [ inl e ↦ inl (e, refl) | inr f ↦ inr f ];
    total = λ b h. let (e, p) = c.total b h in (e, refl, p);
  }

  pub Runs-asks : (f : T → A) (t : T) → Runs (asks f) t (ok (f t)) t
  unfolding asks
  Runs-asks f t = record { agrees = λ b. inl (refl, refl); total = λ b h. (refl, refl, h) }

  pub Runs-lift : (r : Result A) (t : T) → Runs (lift r) t r t
  unfolding lift
  Runs-lift r t = record { agrees = λ b. inl (refl, refl); total = λ b h. (refl, refl, h) }

-- A write of the component's state.
unfoldable pub writes : {T : Type 0} → (T → T) → Exec (Metered T) (Unit {0})
writes f s = (ok tt, record s { own = f s.own })

pub Runs-writes : {T : Type 0} (f : T → T) (t : T) → Runs (writes f) t (ok tt) (f t)
unfolding writes
Runs-writes f t = record { agrees = λ b. inl (refl, refl); total = λ b h. (refl, refl, h) }

-- A method of a part of the component, which charges the same budget.
unfoldable pub within :
    {T U A : Type 0} → (T → U) → (U → T → T) → Exec (Metered U) A → Exec (Metered T) A
within get put m s =
    let (r, u) = m (record { own = get s.own; funds = s.funds }) in
    (r, record { own = put u.own s.own; funds = u.funds })

-- What an end of a run is to be: a result and a state.
abbrev Ends : {T B : Type 0} → Result B × Metered T → Result B → T → Type 0
Ends end r v = (end.0 ≡ r) × (end.1.own ≡ v)

module _ {T A B : Type 0} where
  step_agrees :
      (f : A → Exec (Metered T) B) (a : A) (r : Result B) (u v : T)
      → Runs (f a) u r v
      → (x : Result A) (s : Metered T) → ((x ≡ ok a) × (s.own ≡ u)) ⊎ FailsOnBudget x
      → Ends (continue x f s) r v ⊎ FailsOnBudget (continue x f s).0
  step_agrees f a r u v hf x s (inl (e, o)) = rw e (
      subst
        (λ w.
          let end = f a (record { own = w; funds = s.funds }) in Ends end r v ⊎ FailsOnBudget end.0)
        (sym o) (hf.agrees s.funds))
  step_agrees f a r u v hf (ok x) s (inr n) = absurd n
  step_agrees f a r u v hf (err e) s (inr n) = inr n

  step_total :
      (f : A → Exec (Metered T) B) (a : A) (r : Result B) (u v : T)
      → Runs (f a) u r v
      → (x : Result A) (s : Metered T) → (x ≡ ok a) × (s.own ≡ u) × IsFree s.funds
      → let end = continue x f s in (end.0 ≡ r) × (end.1.own ≡ v) × IsFree end.1.funds
  step_total f a r u v hf x s (e, o, p) = rw e (
      subst
        (λ w.
          let end = f a (record { own = w; funds = s.funds }) in
          (end.0 ≡ r) × (end.1.own ≡ v) × IsFree end.1.funds)
        (sym o) (hf.total s.funds p))

  -- A step that gives a value, and what follows at that value from the state that it left.
  pub Runs-step :
      (m : Exec (Metered T) A) (f : A → Exec (Metered T) B) (a : A) (u : T) {r : Result B} {t v : T}
      → Runs m t (ok a) u
      → Runs (f a) u r v
      → Runs (m >>= f) t r v
  unfolding ◌>>=◌
  Runs-step m f a u {r} {t} {v} hm hf = record {
    agrees = λ b.
        let (x, s) = m (record { own = t; funds = b }) in
        step_agrees f a r u v hf x s (hm.agrees b);
    total = λ b h.
        let (x, s) = m (record { own = t; funds = b }) in
        step_total f a r u v hf x s (hm.total b h);
  }

  fail_agrees :
      (f : A → Exec (Metered T) B) (e : HostError) (u : T) (x : Result A) (s : Metered T)
      → ((x ≡ err e) × (s.own ≡ u)) ⊎ FailsOnBudget x
      → Ends (continue x f s) (err e) u ⊎ FailsOnBudget (continue x f s).0
  fail_agrees f e u x s (inl (g, o)) = rw g (inl (refl, o))
  fail_agrees f e u (ok x) s (inr n) = absurd n
  fail_agrees f e u (err x) s (inr n) = inr n

  -- A step that fails ends the run.
  pub Runs-fail :
      (m : Exec (Metered T) A) (f : A → Exec (Metered T) B) (e : HostError) {t u : T}
      → Runs m t (err e) u
      → Runs (m >>= f) t (err e) u
  unfolding ◌>>=◌
  Runs-fail m f e {t} {u} hm = record {
    agrees =
        λ b. let (x, s) = m (record { own = t; funds = b }) in fail_agrees f e u x s (hm.agrees b);
    total = λ b h. let (g, o, p) = hm.total b h in rw g (refl, o, p);
  }
