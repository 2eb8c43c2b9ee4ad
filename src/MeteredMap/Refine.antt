-- ===== src/MeteredMap/Refine.antt =====
-- The search in the metered map, against the entry-by-entry reading.
use Prim.Native.Nat.Ordering.{lt, eq, gt}
use rs_stellar_contract_env.Prelude.{
  ℕ, zero, suc, ◌+◌, ◌-◌, ◌/◌, ◌≤◌, ◌<◌, ◌≡◌, some, List, Ordering, arith, length, get_elem?, ltb,
  Bool-cases, inl, inr, get_elem?-lt, get_elem?_bound,
}
use rs_stellar_contract_env.Error.{ok, ok_or}
use rs_stellar_contract_env.Exec.{lift}
use rs_stellar_contract_env.Exec.Computes.{Computes, Computes-pure, Computes-lift, Computes-step}
use rs_stellar_contract_env.Budget.CostType.{mem_cpy}
use rs_stellar_contract_env.Budget.Charge.Free.{IsFree, charge-Computes}
use rs_stellar_contract_env.Budget.Tracker.{init_input}
use rs_stellar_contract_env.MeteredClone.{IsMetered}
use rs_stellar_contract_env.MeteredMap.{
  Ctx, found, missing, map_oob, charge_access, charge_binsearch, binary_search, find,
}
use rs_stellar_contract_env.MeteredMap.Order.{
  IsOrder, IsSorted, Ordering-cases, position, position_missing, position_found, Lower, Upper,
  Lower-of_lt, Upper-of_gt, Lower-of_eq,
}

-- What the type parameters promise: cloning is metered, and comparing gives an order of the keys
-- and charges no more than the budget.
pub record IsContext {K V : Type 0} (ctx : Ctx K V) (cmp : K → K → Ordering) : Type 0 where
  pub entries : IsMetered ctx.entry
  pub values : IsMetered ctx.value
  pub compares : (a b : K) → Computes IsFree (ctx.compare_keys a b) (ok (cmp a b))
  pub order : IsOrder cmp

module _ {K V : Type 0} (ctx : Ctx K V) (cmp : K → K → Ordering) (context : IsContext ctx cmp) where
  pub Computes-access : (n : ℕ) → Computes IsFree (charge_access ctx n) (ok tt)
  unfolding charge_access init_input
  Computes-access n = charge-Computes mem_cpy _ tt

  Computes-binsearch : (m : List (K × V)) → Computes IsFree (charge_binsearch ctx m) (ok tt)
  unfolding charge_binsearch init_input
  Computes-binsearch m = charge-Computes mem_cpy _ tt

  lift-some :
      (m : List (K × V)) (i : ℕ) (e : K × V)
      → get_elem? m i ≡ some e
      → Computes IsFree (lift (ok_or (get_elem? m i) map_oob)) (ok e)
  lift-some m i e g = rw g (Computes-lift (ok e))

  pub compare_at :
      (a b : K) (o : Ordering) → cmp a b ≡ o → Computes IsFree (ctx.compare_keys a b) (ok o)
  compare_at a b o h = rw (← h) (context.compares a b)

  -- On fuel above the width of the range, the binary search finds the position, from any range of a
  -- sorted map that leaves only lower keys before it and higher keys after it. A budget may stop it
  -- first with its own error; a free budget does not.
  pub Computes-binary_search :
      (fuel : ℕ) (m : List (K × V)) (key : K) (left right : ℕ)
      → right - left < fuel
      → left ≤ right
      → right ≤ length m
      → IsSorted cmp m
      → Lower cmp key left m
      → Upper cmp key right m
      → Computes IsFree (binary_search ctx fuel m key left right) (ok (position cmp key m))
  unfolding binary_search
  Computes-binary_search zero m key left right f le len s lo up = absurd (omega arith)
  Computes-binary_search (suc fuel) m key left right f le len s lo up =
      elim (Bool-cases (ltb left right)) [
        | inr e ↦ rw e (
            rw
              (position_missing cmp key left m (omega arith) lo
                (λ i x p g. up i x (ground arith) g))
              (Computes-pure (missing left)))
        | inl e ↦
            let mid = left + (right - left) / 2 in
            let less : left < right = ground arith in
            let (p, g) = get_elem?-lt m mid (omega arith) in
            rw e (
              Computes-step (lift (ok_or (get_elem? m mid) map_oob)) _ p (ok (position cmp key m))
                (lift-some m mid p g)
                (elim (Ordering-cases (cmp p.0 key)) [
                  | inl h ↦
                      Computes-step (ctx.compare_keys p.0 key) _ lt (ok (position cmp key m))
                        (compare_at p.0 key lt h)
                        (Computes-binary_search fuel m key (mid + 1) right (omega arith)
                          (omega arith) len s (Lower-of_lt cmp context.order m key mid p s g h) up)
                  | inr (inl h) ↦
                      Computes-step (ctx.compare_keys p.0 key) _ eq (ok (position cmp key m))
                        (compare_at p.0 key eq h)
                        (rw
                          (position_found cmp key mid m p g h
                            (Lower-of_eq cmp context.order m key mid p s g h))
                          (Computes-pure (found mid)))
                  | inr (inr h) ↦
                      Computes-step (ctx.compare_keys p.0 key) _ gt (ok (position cmp key m))
                        (compare_at p.0 key gt h)
                        (Computes-binary_search fuel m key left mid (omega arith) (omega arith)
                          (omega arith) s lo (Upper-of_gt cmp context.order m key mid p s g h))
                ]))
      ]

  -- The search of a sorted map computes the position of the key. A budget may stop it first with its
  -- own error; a free budget does not.
  pub Computes-find :
      (m : List (K × V)) (key : K)
      → IsSorted cmp m
      → Computes IsFree (find ctx m key) (ok (position cmp key m))
  unfolding find
  Computes-find m key s =
      Computes-step (charge_binsearch ctx m) _ tt (ok (position cmp key m)) (Computes-binsearch m) (
        Computes-binary_search (suc (length m)) m key 0 (length m) (omega arith) (omega arith)
          (omega arith) s (λ i e h g. elim h [ ]) (λ i e h g. absurd (get_elem?_bound m i e g h)))
