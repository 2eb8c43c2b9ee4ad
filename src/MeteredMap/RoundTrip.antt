-- ===== src/MeteredMap/RoundTrip.antt =====
-- Reading the map after writing to it.
use rs_stellar_contract_env.Prelude.{◌≤◌, some, Ordering, length, u32_max}
use rs_stellar_contract_env.Error.{ok}
use rs_stellar_contract_env.Exec.{◌>>=◌}
use rs_stellar_contract_env.Exec.Computes.{Computes, Computes-step}
use rs_stellar_contract_env.Budget.Charge.Free.{IsFree}
use rs_stellar_contract_env.MeteredMap
use rs_stellar_contract_env.MeteredMap.{MeteredOrdMap, Ctx}
use rs_stellar_contract_env.MeteredMap.Order.{IsSorted}
use rs_stellar_contract_env.MeteredMap.Spec
use rs_stellar_contract_env.MeteredMap.Spec.{insert-IsSorted}
use rs_stellar_contract_env.MeteredMap.Laws.{written, lookup-insert}
use rs_stellar_contract_env.MeteredMap.Refine.{IsContext}
use rs_stellar_contract_env.MeteredMap.Query.{Computes-get}
use rs_stellar_contract_env.MeteredMap.Write.{Computes-insert}

module _ {K V : Type 0} (ctx : Ctx K V) (cmp : K → K → Ordering) (context : IsContext ctx cmp) where
  -- On a sorted map with room, an `insert` followed by a `get` of any key gives the value inserted
  -- where the keys compare as equal, and otherwise what the map had there before. A budget may stop
  -- it first with its own error; a free budget does not.
  pub Computes-insert_get :
      (self : MeteredOrdMap K V) (key j : K) (value : V)
      → IsSorted cmp self.map
      → length self.map ≤ u32_max
      → length (Spec.insert cmp key value self.map) ≤ u32_max
      → Computes IsFree
          (MeteredMap.insert ctx self key value >>= λ m. MeteredMap.get ctx m j)
          (ok (written {V = V} cmp key j (some value) (Spec.lookup cmp j self.map)))
  Computes-insert_get self key j value s h room =
      rw (← lookup-insert cmp context.order key j value self.map) (
        Computes-step (MeteredMap.insert ctx self key value) _
          (record { map = Spec.insert cmp key value self.map }) _
          (Computes-insert ctx cmp context self key value s h room)
          (Computes-get ctx cmp context _ j
            (insert-IsSorted cmp context.order key value self.map s)))
