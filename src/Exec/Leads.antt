-- ===== src/Exec/Leads.antt =====
-- Where methods lead: what holds of the result and of the state after a method, from what held
-- before, with a rule for each way in which methods are put together.
use rs_stellar_contract_env.Prelude.{true, false, Bool, if◌then◌else◌}
use rs_stellar_contract_env.Error.{HostError, Result, ok, err}
use rs_stellar_contract_env.Exec.{Exec, pure, lift, ◌>>=◌, continue, attempt}

abbrev pub Leads {ℓ κ μ ν} :
    {S : Type ℓ} {A : Type κ} → (S → Type μ) → Exec S A → (Result A → S → Type ν) → Type (ℓ ⊔ μ ⊔ ν)
Leads {S = S} P m Q = (s : S) → P s → Q (m s).0 (m s).1

module _ {ℓ κ ι ν ξ} {S : Type ℓ} {A : Type κ} {B : Type ι} where
  continue-Leads :
      (E : Result A → S → Type ν) (Q : Result B → S → Type ξ) (f : A → Exec S B)
      → ((a : A) → Leads (E (ok a)) (f a) Q)
      → ((e : HostError) (s : S) → E (err e) s → Q (err e) s)
      → (r : Result A) (s : S) → E r s
      → Q (continue r f s).0 (continue r f s).1
  continue-Leads E Q f hf he (ok a) s h = hf a s h
  continue-Leads E Q f hf he (err e) s h = he e s h

  pub Leads-bind {μ} :
      {P : S → Type μ} (E : Result A → S → Type ν) (Q : Result B → S → Type ξ) (m : Exec S A)
      (f : A → Exec S B)
      → Leads P m E
      → ((a : A) → Leads (E (ok a)) (f a) Q)
      → ((e : HostError) (s : S) → E (err e) s → Q (err e) s)
      → Leads P (m >>= f) Q
  unfolding ◌>>=◌
  Leads-bind E Q m f hm hf he s p = continue-Leads E Q f hf he (m s).0 (m s).1 (hm s p)

-- A relation between the state before and the state after that a method keeps to.
abbrev pub Keeps {ℓ κ μ} : {S : Type ℓ} {A : Type κ} → (S → S → Type μ) → Exec S A → Type (ℓ ⊔ μ)
Keeps {S = S} R m = (s : S) → R s (m s).1

-- Such a relation with what the rules need.
pub record IsPreorder {ℓ μ} {S : Type ℓ} (R : S → S → Type μ) : Type (ℓ ⊔ μ) where
  pub same : (s : S) → R s s
  pub chain : (a b c : S) → R a b → R b c → R a c

module _ {ℓ κ μ} {S : Type ℓ} {A : Type κ} (R : S → S → Type μ) (order : IsPreorder R) where
  pub Keeps-pure : (a : A) → Keeps R (pure a)
  unfolding pure
  Keeps-pure a s = order.same s

  pub Keeps-lift : (r : Result A) → Keeps R (lift r)
  unfolding lift
  Keeps-lift r s = order.same s

  pub Keeps-attempt : (m : Exec S A) → Keeps R m → Keeps R (attempt m)
  unfolding attempt
  Keeps-attempt m h = h

  pub Keeps-if : (b : Bool) (m n : Exec S A) → Keeps R m → Keeps R n → Keeps R (if b then m else n)
  Keeps-if true m n h k = h
  Keeps-if false m n h k = k

module _ {ℓ κ ι μ} {S : Type ℓ} {A : Type κ} {B : Type ι} (R : S → S → Type μ)
    (order : IsPreorder R) where
  continue-Keeps :
      (f : A → Exec S B)
      → ((a : A) → Keeps R (f a))
      → (r : Result A) (s : S) → R s (continue r f s).1
  continue-Keeps f h (ok a) s = h a s
  continue-Keeps f h (err e) s = order.same s

  pub Keeps-bind :
      (m : Exec S A) (f : A → Exec S B) → Keeps R m → ((a : A) → Keeps R (f a)) → Keeps R (m >>= f)
  unfolding ◌>>=◌
  Keeps-bind m f hm hf s = order.chain s (m s).1 _ (hm s) (continue-Keeps f hf (m s).0 (m s).1)
