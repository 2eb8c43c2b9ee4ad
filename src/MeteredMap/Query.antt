-- ===== src/MeteredMap/Query.antt =====
-- Lookups in the metered map, against the entry-by-entry reading.
use rs_stellar_contract_env.Prelude.{
  ℕ, suc, ◌<◌, ◌≡◌, refl, none, some, List, [], ◌∷◌, Ordering, arith, length, get_elem?-lt, is_some,
}
use rs_stellar_contract_env.Error.{ok}
use rs_stellar_contract_env.Exec.{lift}
use rs_stellar_contract_env.Exec.Computes.{Computes, Computes-pure, Computes-lift, Computes-step}
use rs_stellar_contract_env.Budget.Charge.Free.{IsFree}
use rs_stellar_contract_env.MeteredMap
use rs_stellar_contract_env.MeteredMap.{
  MeteredOrdMap, Ctx, Position, found, missing, map_oob, charge_access, charge_scan, check_order,
  from_map, from_exact_iter, find, insert_at, get_at, remove_at, is_found,
}
use rs_stellar_contract_env.MeteredMap.Order.{IsSorted, position, shift}
use rs_stellar_contract_env.MeteredMap.Spec
use rs_stellar_contract_env.MeteredMap.Spec.{
  entry_at, put_at, erase_at, put_at-position, erase_at-position, entry_at-position,
  insert-IsSorted, Above-trans,
}
use rs_stellar_contract_env.MeteredMap.Refine.{IsContext, Computes-access, Computes-find}

module _ {K V : Type 0} (ctx : Ctx K V) (cmp : K → K → Ordering) (context : IsContext ctx cmp) where
  get_at-Computes :
      (m : List (K × V)) (p : Position)
      → ((i : ℕ) → p ≡ found i → i < length m)
      → Computes IsFree (get_at ctx m p) (ok (entry_at cmp m p))
  unfolding get_at
  get_at-Computes m (missing i) h = Computes-pure none
  get_at-Computes m (found i) h =
      let (e, g) = get_elem?-lt m i (h i refl) in
      rw (g, entry_at)
        (Computes-step (charge_access ctx 1) _ tt _ (Computes-access ctx cmp context 1)
          (Computes-step (lift (ok e)) _ e _ (Computes-lift (ok e)) (Computes-pure (some e.1))))

  pub position_bound :
      (key : K) (m : List (K × V)) (i : ℕ) → position cmp key m ≡ found i → i < length m
  unfolding position
  position_bound key [] i h = cc h
  position_bound key ((k, v) ∷ m) i h =
      ground (arith, shifted (position cmp key m) i (position_bound key m))
    where
      shifted :
          (p : Position) (i : ℕ)
          → ((j : ℕ) → p ≡ found j → j < length m)
          → shift p ≡ found i
          → i < suc (length m)
      shifted (found j) i h e = let l = h j refl in ground arith
      shifted (missing j) i h e = cc e

  -- On a sorted map, `get` finds what is at the key, as a search entry by entry does. A budget may
  -- stop it first with its own error; a free budget does not.
  pub Computes-get :
      (self : MeteredOrdMap K V) (key : K)
      → IsSorted cmp self.map
      → Computes IsFree (MeteredMap.get ctx self key) (ok (Spec.lookup cmp key self.map))
  unfolding MeteredMap.get
  Computes-get self key s =
      Computes-step (find ctx self.map key) _ (position cmp key self.map) _
        (Computes-find ctx cmp context self.map key s)
        (rw (← entry_at-position cmp context.order key self.map s)
          (get_at-Computes self.map (position cmp key self.map) (position_bound key self.map)))

  contains-Computes :
      (m : List (K × V)) (p : Position)
      → ((i : ℕ) → p ≡ found i → i < length m)
      → is_found ctx p ≡ is_some (entry_at cmp m p)
  contains-Computes m (missing i) h = refl
  contains-Computes m (found i) h = let (e, g) = get_elem?-lt m i (h i refl) in rw (g, entry_at)

  pub Computes-contains_key :
      (self : MeteredOrdMap K V) (key : K)
      → IsSorted cmp self.map
      → Computes IsFree
          (MeteredMap.contains_key ctx self key)
          (ok (is_some (Spec.lookup cmp key self.map)))
  unfolding MeteredMap.contains_key
  Computes-contains_key self key s =
      Computes-step (find ctx self.map key) _ (position cmp key self.map) _
        (Computes-find ctx cmp context self.map key s)
        (rw (← entry_at-position cmp context.order key self.map s) (
          rw
            (← contains-Computes self.map (position cmp key self.map) (position_bound key self.map))
            (Computes-pure _)))
