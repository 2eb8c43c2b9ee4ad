-- ===== src/MeteredVector/Charges.antt =====
-- The charges of the vector, and its construction from a list.
use rs_stellar_contract_env.Prelude.{
  true, false, ℕ, ◌≤◌, ◌≡◌, refl, List, arith, length, ltb, leb, if◌then◌else◌, Bool-cases, inl,
  inr, u32_max,
}
use rs_stellar_contract_env.Error.{Result, ok, err}
use rs_stellar_contract_env.Exec.Computes.{Computes, Computes-lift, Computes-step}
use rs_stellar_contract_env.Budget.CostType.{mem_cpy}
use rs_stellar_contract_env.Budget.Tracker.{init_input}
use rs_stellar_contract_env.Budget.Charge.Free.{IsFree, charge-Computes}
use rs_stellar_contract_env.MeteredClone.{
  MeteredClone, IsMetered, vec_clone, vec_clone-IsMetered, charge_deep_clone, Computes-deep_clone,
}
use rs_stellar_contract_env.MeteredVector.{
  MeteredVector, vec_oob, from_vec, from_exact_iter, charge_access, charge_binsearch,
}

-- A vector, where its length is at most 2^32 - 1, and otherwise the error of an index out of bounds.
abbrev pub bounded : {A : Type 0} → List A → Result (MeteredVector A)
bounded xs = if leb (length xs) u32_max then ok (record { vec = xs }) else err vec_oob

pub bounded_fits :
    {A : Type 0} (xs : List A) → length xs ≤ u32_max → bounded xs ≡ ok (record { vec = xs })
bounded_fits xs h = ground arith

module _ {A : Type 0} (elt : MeteredClone A) (vec_size : ℕ) where
  pub Computes-access : (n : ℕ) → Computes IsFree (charge_access elt vec_size n) (ok tt)
  unfolding charge_access init_input
  Computes-access n = charge-Computes mem_cpy _ tt

  pub Computes-binsearch :
      (xs : List A) → Computes IsFree (charge_binsearch elt vec_size xs) (ok tt)
  unfolding charge_binsearch charge_access init_input
  Computes-binsearch xs = charge-Computes mem_cpy _ tt

module _ {A : Type 0} (elt : MeteredClone A) (vec_size : ℕ) (metered : IsMetered elt) where
  pub Computes-from_exact_iter :
      (xs : List A) → Computes IsFree (from_exact_iter elt vec_size xs) (bounded xs)
  unfolding from_exact_iter from_vec
  Computes-from_exact_iter xs = elim (Bool-cases (ltb u32_max (length xs))) [
    | inl e ↦
        let b : leb (length xs) u32_max ≡ false = ground arith in
        rw (e, b) (Computes-lift (err vec_oob))
    | inr e ↦
        let b : leb (length xs) u32_max ≡ true = ground arith in
        rw (e, b)
          (Computes-step (charge_deep_clone (vec_clone vec_size elt) xs) _ tt _
            (Computes-deep_clone (vec_clone vec_size elt) (vec_clone-IsMetered elt metered vec_size)
              xs refl)
            (Computes-lift _))
  ]
