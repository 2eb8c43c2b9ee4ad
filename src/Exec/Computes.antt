-- ===== src/Exec/Computes.antt =====
-- When a metered method computes what its unmetered reading says: one rule for each way in which
-- such a method is put together.
use mathlib.Core.Path.{subst}
use rs_stellar_contract_env.Prelude.{◌≡◌, refl, ◌⊎◌, inl, inr}
use rs_stellar_contract_env.Error.{HostError, Result, ok, err, FailsOnBudget, bind}
use rs_stellar_contract_env.Exec.{Exec, pure, lift, ◌>>=◌, continue}

-- From every state `m` gives `r`, unless the budget stops it; from a state in `P` the budget does
-- not stop it, and the state that it leaves is in `P`.
pub record Computes {ℓ κ} {S A : Type ℓ} (P : S → Type κ) (m : Exec S A) (r : Result A)
    : Type (ℓ ⊔ κ) where
  pub agrees : (s : S) → ((m s).0 ≡ r) ⊎ FailsOnBudget (m s).0
  pub total : (s : S) → P s → ((m s).0 ≡ r) × P (m s).1

module _ {ℓ κ} {S A : Type ℓ} {P : S → Type κ} where
  pub Computes-pure : (a : A) → Computes P (pure a) (ok a)
  unfolding pure
  Computes-pure a = record { agrees = λ s. inl refl; total = λ s h. (refl, h) }

  pub Computes-lift : (r : Result A) → Computes P (lift r) r
  unfolding lift
  Computes-lift r = record { agrees = λ s. inl refl; total = λ s h. (refl, h) }

pub ok_injective {ℓ} : {A : Type ℓ} {a b : A} → ok a ≡ ok b → a ≡ b
ok_injective e = cc e

module _ {ℓ κ} {S A B : Type ℓ} {P : S → Type κ} where
  -- The rest of the chain, at the result that the unmetered reading gives.
  continue_pure :
      (f : A → Exec S B) (r : Result A) (g : A → Result B)
      → ((a : A) → r ≡ ok a → Computes P (f a) (g a))
      → (s : S) → ((continue r f s).0 ≡ bind r g) ⊎ FailsOnBudget (continue r f s).0
  continue_pure f (ok a) g h s = (h a refl).agrees s
  continue_pure f (err e) g h s = inl refl

  continue-agrees :
      (f : A → Exec S B) (r : Result A) (g : A → Result B)
      → ((a : A) → r ≡ ok a → Computes P (f a) (g a))
      → (s : S) (x : Result A) → (x ≡ r) ⊎ FailsOnBudget x
      → ((continue x f s).0 ≡ bind r g) ⊎ FailsOnBudget (continue x f s).0
  continue-agrees f r g h s x (inl e) = rw e (continue_pure f r g h s)
  continue-agrees f r g h s (ok a) (inr n) = absurd n
  continue-agrees f r g h s (err e) (inr n) = inr n

  continue_total :
      (f : A → Exec S B) (r : Result A) (g : A → Result B)
      → ((a : A) → r ≡ ok a → Computes P (f a) (g a))
      → (s : S) → P s
      → ((continue r f s).0 ≡ bind r g) × P (continue r f s).1
  continue_total f (ok a) g h s p = (h a refl).total s p
  continue_total f (err e) g h s p = (refl, p)

  pub Computes-bind :
      (m : Exec S A) (f : A → Exec S B) (r : Result A) (g : A → Result B)
      → Computes P m r
      → ((a : A) → r ≡ ok a → Computes P (f a) (g a))
      → Computes P (m >>= f) (bind r g)
  unfolding ◌>>=◌
  Computes-bind m f r g cm cf = record {
    agrees = λ s. let (x, s') = m s in continue-agrees f r g cf s' x (cm.agrees s);
    total = λ s h. let (e, p) = cm.total s h in rw e (continue_total f r g cf (m s).1 p);
  }

  -- A step that gives a value, and what follows at that value.
  pub Computes-step :
      (m : Exec S A) (f : A → Exec S B) (a : A) (r : Result B)
      → Computes P m (ok a)
      → Computes P (f a) r
      → Computes P (m >>= f) r
  Computes-step m f a r cm cf =
      Computes-bind m f (ok a) (λ _. r) cm
        (λ b e. subst (λ c. Computes P (f c) r) (ok_injective e) cf)

  -- A step that fails ends the chain.
  pub Computes-fail :
      (m : Exec S A) (f : A → Exec S B) (e : HostError)
      → Computes P m (err e)
      → Computes P (m >>= f) (err e)
  Computes-fail m f e cm = Computes-bind m f (err e) (λ _. err e) cm (λ b h. absurd (cc h))
