-- ===== src/MeteredClone.antt =====
-- soroban-env-host/src/host/metered_clone.rs: charging for copies, allocations and deep clones. The
-- trait's implementation for a type is a record.
use rs_stellar_contract_env.Prelude.{
  ℕ, Bool, false, some, List, [], ◌∷◌, ◌≡◌, if◌then◌else◌, length, saturating_mul, u64_max,
  Bool-cases, inl, inr,
}
use rs_stellar_contract_env.Error.{Result, ok, fail, object, internal_error}
use rs_stellar_contract_env.Exec.{Exec, pure, lift, ◌>>◌}
use rs_stellar_contract_env.Exec.Computes.{Computes, Computes-pure, Computes-bind}
use rs_stellar_contract_env.Budget.CostType.{mem_cpy, mem_alloc}
use rs_stellar_contract_env.Budget.Charge.{BudgetImpl, charge}
use rs_stellar_contract_env.Budget.Tracker.{init_input}
use rs_stellar_contract_env.Budget.Charge.Free.{IsFree, charge-Computes}

-- The trait `MeteredClone` with its `DeclaredSizeForMetering`, at one type.
pub record MeteredClone (A : Type 0) : Type 0 where
  pub declared_size : ℕ
  pub is_shallow : Bool
  pub charge_for_substructure : A → Exec BudgetImpl (Unit {0})

unfoldable pub charge_shallow_copy : {A : Type 0} → MeteredClone A → ℕ → Exec BudgetImpl (Unit {0})
charge_shallow_copy c n_elts = charge mem_cpy (some (saturating_mul u64_max n_elts c.declared_size))

unfoldable pub charge_heap_alloc : {A : Type 0} → MeteredClone A → ℕ → Exec BudgetImpl (Unit {0})
charge_heap_alloc c n_elts = charge mem_alloc (some (saturating_mul u64_max n_elts c.declared_size))

-- The loop over the elements of a slice.
unfoldable pub charge_each : {A : Type 0} → MeteredClone A → List A → Exec BudgetImpl (Unit {0})
charge_each c [] = pure tt
charge_each c (x ∷ xs) = do c.charge_for_substructure x; charge_each c xs

unfoldable pub bulk_charge_for_substructure :
    {A : Type 0} → MeteredClone A → List A → Exec BudgetImpl (Unit {0})
bulk_charge_for_substructure c clones = if c.is_shallow then pure tt else charge_each c clones

-- `Vec<C>::charge_for_substructure`
unfoldable pub vec_charge_for_substructure :
    {A : Type 0} → MeteredClone A → List A → Exec BudgetImpl (Unit {0})
vec_charge_for_substructure c xs = do
  charge_heap_alloc c (length xs)
  charge_shallow_copy c (length xs)
  bulk_charge_for_substructure c xs

-- `impl MeteredClone for Vec<C>`, with the declared size of a vector
abbrev pub vec_clone : {A : Type 0} → ℕ → MeteredClone A → MeteredClone (List A)
vec_clone size c = record {
  declared_size = size;
  is_shallow = false;
  charge_for_substructure = vec_charge_for_substructure c;
}

unfoldable pub charge_deep_clone : {A : Type 0} → MeteredClone A → A → Exec BudgetImpl (Unit {0})
charge_deep_clone c x =
    if c.is_shallow
    then lift (fail object internal_error)
    else do charge_shallow_copy c 1; c.charge_for_substructure x

unfoldable pub metered_clone : {A : Type 0} → MeteredClone A → A → Exec BudgetImpl A
metered_clone c x = do charge_shallow_copy c 1; c.charge_for_substructure x; pure x

-- `Rc::metered_new`
unfoldable pub metered_new : {A : Type 0} → MeteredClone A → A → Exec BudgetImpl A
metered_new c value = do charge_heap_alloc c 1; pure value

-- `Vec::<A>::charge_bulk_init_cpy`, with the declared size of a vector
unfoldable pub charge_bulk_init_cpy :
    {A : Type 0} → ℕ → MeteredClone A → ℕ → Exec BudgetImpl (Unit {0})
charge_bulk_init_cpy vec_size c len = do
  charge_shallow_copy (vec_clone vec_size c) 1
  charge_heap_alloc c len
  charge_shallow_copy c len

-- What an implementation of the trait is to do: its charge changes nothing but the budget, and
-- fails only as the budget does.
pub record IsMetered {A : Type 0} (c : MeteredClone A) : Type 0 where
  pub charges : (x : A) → Computes IsFree (c.charge_for_substructure x) (ok tt)

module _ {A : Type 0} (c : MeteredClone A) where
  pub Computes-shallow_copy : (n : ℕ) → Computes IsFree (charge_shallow_copy c n) (ok tt)
  unfolding charge_shallow_copy init_input
  Computes-shallow_copy n = charge-Computes mem_cpy _ tt

  pub Computes-heap_alloc : (n : ℕ) → Computes IsFree (charge_heap_alloc c n) (ok tt)
  unfolding charge_heap_alloc init_input
  Computes-heap_alloc n = charge-Computes mem_alloc _ tt

pub Computes-then :
    {B : Type 0} (m : Exec BudgetImpl (Unit {0})) (k : Exec BudgetImpl B) (r : Result B)
    → Computes IsFree m (ok tt)
    → Computes IsFree k r
    → Computes IsFree (m >> k) r
Computes-then m k r hm hk = Computes-bind m (λ _. k) (ok tt) (λ _. r) hm (λ _ _. hk)

module _ {A : Type 0} (c : MeteredClone A) (metered : IsMetered c) where
  Computes-charge_each : (xs : List A) → Computes IsFree (charge_each c xs) (ok tt)
  unfolding charge_each
  Computes-charge_each [] = Computes-pure tt
  Computes-charge_each (x ∷ xs) =
      Computes-then (c.charge_for_substructure x) (charge_each c xs) (ok tt) (metered.charges x)
        (Computes-charge_each xs)

  Computes-bulk : (xs : List A) → Computes IsFree (bulk_charge_for_substructure c xs) (ok tt)
  unfolding bulk_charge_for_substructure
  Computes-bulk xs = elim (Bool-cases c.is_shallow) [
    | inl e ↦ simp e (Computes-pure tt)
    | inr e ↦ simp e (Computes-charge_each xs)
  ]

  Computes-vec : (xs : List A) → Computes IsFree (vec_charge_for_substructure c xs) (ok tt)
  unfolding vec_charge_for_substructure
  Computes-vec xs =
      Computes-then (charge_heap_alloc c (length xs)) _ (ok tt) (Computes-heap_alloc c (length xs))
        (Computes-then (charge_shallow_copy c (length xs)) _ (ok tt)
          (Computes-shallow_copy c (length xs)) (Computes-bulk xs))

  -- A vector of what is metered is metered.
  pub vec_clone-IsMetered : (size : ℕ) → IsMetered (vec_clone size c)
  vec_clone-IsMetered size = record { charges = Computes-vec }

  -- Cloning gives the value back.
  pub Computes-metered_clone : (x : A) → Computes IsFree (metered_clone c x) (ok x)
  unfolding metered_clone
  Computes-metered_clone x =
      Computes-then (charge_shallow_copy c 1) _ (ok x) (Computes-shallow_copy c 1)
        (Computes-then (c.charge_for_substructure x) _ (ok x) (metered.charges x) (Computes-pure x))

  pub Computes-deep_clone :
      (x : A) → c.is_shallow ≡ false → Computes IsFree (charge_deep_clone c x) (ok tt)
  unfolding charge_deep_clone
  Computes-deep_clone x e = simp e (
      Computes-then (charge_shallow_copy c 1) _ (ok tt) (Computes-shallow_copy c 1)
        (metered.charges x))
