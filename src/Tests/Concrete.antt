-- ===== src/Tests/Concrete.antt =====
-- Keys with an order, the context of a map that compares and clones them, and budgets.
use rs_stellar_contract_env.Prelude.{ℕ, true, some, Ordering, arith, compare}
use rs_stellar_contract_env.Error.{ok}
use rs_stellar_contract_env.Exec.{Exec, pure, ◌>>◌}
use rs_stellar_contract_env.Exec.Computes.{Computes, Computes-pure}
use rs_stellar_contract_env.Budget.CostType.{mem_cmp}
use rs_stellar_contract_env.Budget.Charge.{BudgetImpl, charge}
use rs_stellar_contract_env.Budget.Charge.Free.{IsFree, charge-Computes}
use rs_stellar_contract_env.Budget.Tracker.{init_input}
use rs_stellar_contract_env.MeteredClone.{MeteredClone, IsMetered, Computes-then}
use rs_stellar_contract_env.MeteredMap.{Ctx}
use rs_stellar_contract_env.MeteredMap.Order.{IsOrder}
use rs_stellar_contract_env.MeteredMap.Refine.{IsContext}

-- Keys as their ranks order them.
abbrev pub by_rank : {K : Type 0} → (K → ℕ) → K → K → Ordering
by_rank rank a b = compare (rank a) (rank b)

pub by_rank-IsOrder : {K : Type 0} (rank : K → ℕ) → IsOrder (by_rank rank)
by_rank-IsOrder rank = record {
  same = λ a. ground arith;
  flip_lt = λ a b h. ground arith;
  flip_gt = λ a b h. ground arith;
  chain = λ a b c h k. ground arith;
  left_eq = λ a b c h. ground arith;
}

-- A type that is cloned by copying its bytes.
abbrev pub plain : {A : Type 0} → ℕ → MeteredClone A
plain size = record {
  declared_size = size;
  is_shallow = true;
  charge_for_substructure = λ x. pure tt;
}

pub plain-IsMetered : {A : Type 0} (size : ℕ) → IsMetered (plain {A = A} size)
plain-IsMetered size = record { charges = λ x. Computes-pure tt }

-- A comparison that is charged for 8 bytes.
unfoldable pub charged_compare : {K : Type 0} → (K → ℕ) → K → K → Exec BudgetImpl Ordering
charged_compare rank a b = do charge mem_cmp (some 8); pure (by_rank rank a b)

abbrev pub ranked : {K V : Type 0} → (K → ℕ) → Ctx K V
ranked rank = record {
  entry = plain 16;
  value = plain 8;
  vec_size = 24;
  compare_keys = charged_compare rank;
}

Computes-charged_compare :
    {K : Type 0} (rank : K → ℕ) (a b : K)
    → Computes IsFree (charged_compare rank a b) (ok (by_rank rank a b))
unfolding charged_compare init_input
Computes-charged_compare rank a b =
    Computes-then (charge mem_cmp (some 8)) _ (ok (by_rank rank a b))
      (charge-Computes mem_cmp (some 8) tt) (Computes-pure (by_rank rank a b))

pub ranked-IsContext :
    {K V : Type 0} (rank : K → ℕ) → IsContext (ranked {K = K} {V = V} rank) (by_rank rank)
ranked-IsContext rank = record {
  entries = plain-IsMetered 16;
  values = plain-IsMetered 8;
  compares = Computes-charged_compare rank;
  order = by_rank-IsOrder rank;
}
