-- ===== src/Tests/VectorRuns.antt =====
-- The theorems on vectors at a vector of three numbers.
use rs_stellar_contract_env.Prelude.{
  ℕ, zero, suc, ◌⊎◌, inl, inr, ◌≡◌, refl, some, [], ◌∷◌, Ordering, arith, compare, get_elem?,
}
use rs_stellar_contract_env.Error.{ok}
use rs_stellar_contract_env.Exec.{Exec, pure, ◌>>=◌}
use rs_stellar_contract_env.Exec.Computes.{Computes, Computes-pure}
use rs_stellar_contract_env.Budget.Charge.{BudgetImpl}
use rs_stellar_contract_env.Budget.Charge.Free.{IsFree}
use rs_stellar_contract_env.MeteredMap.{Position}
use rs_stellar_contract_env.MeteredVector
use rs_stellar_contract_env.MeteredVector.{
  MeteredVector, binary_search_by, first_index_of, last_index_of,
}
use rs_stellar_contract_env.MeteredVector.Laws.{Computes-insert-remove}
use rs_stellar_contract_env.MeteredVector.Search.{
  IsPartitioned, IsAnswer, Computes-binary_search_by,
}
use rs_stellar_contract_env.Tests.Concrete.{plain, plain-IsMetered}

abbrev three : MeteredVector ℕ
three = record { vec = 2 ∷ 5 ∷ 9 ∷ [] }

-- The side on which a number lies of 5.
abbrev side : ℕ → Ordering
side n = compare n 5

abbrev on_side : ℕ → Exec BudgetImpl Ordering
on_side n = pure (side n)

on_side-Computes : (n : ℕ) → Computes IsFree (on_side n) (ok (side n))
on_side-Computes n = Computes-pure (side n)

Computes-insert-remove_example :
    Computes IsFree
      (MeteredVector.insert (plain 8) 24 three 1 4 >>= λ v. MeteredVector.remove (plain 8) 24 v 1)
      (ok three)
Computes-insert-remove_example =
    Computes-insert-remove (plain 8) 24 (plain-IsMetered 8) three 1 4 (omega arith) (omega arith)

at :
    (i x : ℕ)
    → get_elem? three.vec i ≡ some x
    → ((i ≡ 0) × (x ≡ 2)) ⊎ ((i ≡ 1) × (x ≡ 5)) ⊎ ((i ≡ 2) × (x ≡ 9))
at zero x e = inl (refl, cc e)
at (suc zero) x e = inr (inl (refl, cc e))
at (suc (suc zero)) x e = inr (inr (refl, cc e))
at (suc (suc (suc i))) x e = cc e

three-IsPartitioned : IsPartitioned side three.vec
three-IsPartitioned = record {
  below = λ i j x y l e f h. ground (arith, at i x e, at j y f);
  above = λ i j x y l e f h. ground (arith, at i x e, at j y f);
}

Computes-binary_search_by_example :
    (p : Position) × Computes IsFree (binary_search_by (plain 8) 24 three on_side) (ok p)
    × IsAnswer side three.vec p
Computes-binary_search_by_example =
    Computes-binary_search_by (plain 8) 24 on_side side on_side-Computes three three-IsPartitioned
