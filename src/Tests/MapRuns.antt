-- ===== src/Tests/MapRuns.antt =====
-- The map's theorems at a map of three entries.
use rs_stellar_contract_env.Prelude.{ℕ, refl, some, List, [], ◌∷◌, arith}
use rs_stellar_contract_env.Error.{ok}
use rs_stellar_contract_env.Exec.{◌>>=◌}
use rs_stellar_contract_env.MeteredMap.RoundTrip.{Computes-insert_get}
use rs_stellar_contract_env.Exec.Computes.{Computes}
use rs_stellar_contract_env.Budget.Charge.Free.{IsFree}
use rs_stellar_contract_env.MeteredMap
use rs_stellar_contract_env.MeteredMap.{MeteredOrdMap, binary_search, find, from_map}
use rs_stellar_contract_env.MeteredMap.Order.{position}
use rs_stellar_contract_env.MeteredMap.Spec
use rs_stellar_contract_env.MeteredMap.Spec.{insert-IsSorted}
use rs_stellar_contract_env.MeteredMap.Laws.{written}
use rs_stellar_contract_env.MeteredMap.Refine.{Computes-binary_search}
use rs_stellar_contract_env.MeteredMap.Query.{Computes-get}
use rs_stellar_contract_env.MeteredMap.Write.{
  Computes-insert-bounded, bounded, Computes-remove, removal,
}
use rs_stellar_contract_env.Tests.Concrete.{by_rank, ranked, ranked-IsContext}

abbrev self : MeteredOrdMap ℕ ℕ
self = record { map = (2, 20) ∷ (5, 50) ∷ (9, 90) ∷ [] }

abbrev reversed : List (ℕ × ℕ)
reversed = (5, 50) ∷ (2, 20) ∷ []

abbrev same_rank : ℕ → ℕ
same_rank a = a

Computes-insert-bounded_example :
    Computes IsFree
      (MeteredMap.insert (ranked same_rank) self 6 60)
      (bounded (Spec.insert (by_rank same_rank) 6 60 self.map))
Computes-insert-bounded_example =
    Computes-insert-bounded (ranked same_rank) (by_rank same_rank) (ranked-IsContext same_rank) self
      6 60 ((refl, (refl, tt)), ((refl, tt), (tt, tt))) (ground arith)

Computes-remove_example : Computes IsFree (MeteredMap.remove (ranked same_rank) self 5) (
    ok (
      removal
        (Spec.erase (by_rank same_rank) 5 self.map)
        (Spec.lookup (by_rank same_rank) 5 self.map)))
Computes-remove_example =
    Computes-remove (ranked same_rank) (by_rank same_rank) (ranked-IsContext same_rank) self 5
      ((refl, (refl, tt)), ((refl, tt), (tt, tt))) (ground arith)

Computes-get_example :
    Computes IsFree
      (MeteredMap.get (ranked same_rank) self 5)
      (ok (Spec.lookup (by_rank same_rank) 5 self.map))
Computes-get_example =
    Computes-get (ranked same_rank) (by_rank same_rank) (ranked-IsContext same_rank) self 5
      ((refl, (refl, tt)), ((refl, tt), (tt, tt)))

Computes-binary_search_example :
    Computes IsFree
      (binary_search (ranked same_rank) 64 self.map 5 0 3)
      (ok (position (by_rank same_rank) 5 self.map))
Computes-binary_search_example =
    Computes-binary_search (ranked same_rank) (by_rank same_rank) (ranked-IsContext same_rank) 64
      self.map 5 0 3 (omega arith) (omega arith) (omega arith)
      ((refl, (refl, tt)), ((refl, tt), (tt, tt))) (λ i e p q. absurd (omega arith))
      (λ i e p q. ground arith)

Computes-insert_get_example :
    Computes IsFree
      (MeteredMap.insert (ranked same_rank) self 6 60 >>= λ m.
        MeteredMap.get (ranked same_rank) m 6)
      (ok (
        written {V = ℕ}
          (by_rank same_rank)
          6
          6
          (some 60)
          (Spec.lookup (by_rank same_rank) 6 self.map)))
unfolding Spec.insert
Computes-insert_get_example =
    Computes-insert_get (ranked same_rank) (by_rank same_rank) (ranked-IsContext same_rank) self 6 6
      60 ((refl, (refl, tt)), ((refl, tt), (tt, tt))) (ground arith) (omega arith)
