-- ===== src/MeteredMap/Build.antt =====
-- Maps built from entries: the check that their keys strictly rise.
use Prim.Native.Nat.Ordering.{lt, eq, gt}
use rs_stellar_contract_env.Prelude.{
  ◌≤◌, ◌≡◌, refl, List, [], ◌∷◌, Ordering, arith, length, ltb, u32_max, Bool-cases, ◌⊎◌, inl, inr,
}
use rs_stellar_contract_env.Error.{Result, ok, fail, object, invalid_input, from_type_and_code}
use rs_stellar_contract_env.Exec.Computes.{
  Computes, Computes-pure, Computes-lift, Computes-step, Computes-fail,
}
use rs_stellar_contract_env.Budget.Charge.Free.{IsFree}
use rs_stellar_contract_env.MeteredClone.{
  vec_clone, vec_clone-IsMetered, Computes-deep_clone, charge_deep_clone,
}
use rs_stellar_contract_env.MeteredMap.{
  Ctx, charge_access, charge_scan, check_order, from_map, from_exact_iter,
}
use rs_stellar_contract_env.MeteredMap.Order.{IsSorted, Ordering-cases}
use rs_stellar_contract_env.MeteredMap.Spec.{Above-trans}
use rs_stellar_contract_env.MeteredMap.Refine.{IsContext, Computes-access, compare_at}

module _ {K V : Type 0} (ctx : Ctx K V) (cmp : K → K → Ordering) (context : IsContext ctx cmp) where
  -- The check of the order passes on a sorted map.
  pub Computes-check_order :
      (m : List (K × V)) → IsSorted cmp m → Computes IsFree (check_order ctx m) (ok tt)
  unfolding check_order
  Computes-check_order [] s = Computes-pure tt
  Computes-check_order ((k, v) ∷ []) s = Computes-pure tt
  Computes-check_order ((k, v) ∷ (l, w) ∷ m) s =
      Computes-step (ctx.compare_keys k l) _ lt (ok tt) (compare_at ctx cmp context k l lt s.0.0)
        (Computes-check_order ((l, w) ∷ m) s.1)

  -- At most 2^32 - 1 entries whose keys strictly rise are taken as they are. A budget may stop it
  -- first with its own error; a free budget does not.
  pub Computes-from_map :
      (m : List (K × V))
      → IsSorted cmp m
      → length m ≤ u32_max
      → Computes IsFree (from_map ctx m) (ok (record { map = m }))
  unfolding from_map charge_scan
  Computes-from_map m s h = elim (Bool-cases (ltb u32_max (length m))) [
    | inl e ↦ absurd (ground arith)
    | inr e ↦ rw e (
        Computes-step (charge_access ctx (length m)) _ tt _
          (Computes-access ctx cmp context (length m))
          (Computes-step (check_order ctx m) _ tt _ (Computes-check_order m s) (Computes-pure _)))
  ]

  pub Computes-from_exact_iter :
      (m : List (K × V))
      → IsSorted cmp m
      → length m ≤ u32_max
      → Computes IsFree (from_exact_iter ctx m) (ok (record { map = m }))
  unfolding from_exact_iter
  Computes-from_exact_iter m s h = elim (Bool-cases (ltb u32_max (length m))) [
    | inl e ↦ absurd (ground arith)
    | inr e ↦ rw e (
        Computes-step (charge_deep_clone (vec_clone ctx.vec_size ctx.entry) m) _ tt _
          (Computes-deep_clone (vec_clone ctx.vec_size ctx.entry)
            (vec_clone-IsMetered ctx.entry context.entries ctx.vec_size) m refl)
          (Computes-from_map m s h))
  ]

  -- The check of the order, with no charges.
  unfoldable pub order_check : List (K × V) → Result (Unit {0})
  order_check [] = ok tt
  order_check ((k, v) ∷ []) = ok tt
  order_check ((k, v) ∷ (l, w) ∷ m) = elim (cmp k l) [
    | lt ↦ order_check ((l, w) ∷ m)
    | _ ↦ fail object invalid_input
  ]

  pub Computes-order_check :
      (m : List (K × V)) → Computes IsFree (check_order ctx m) (order_check m)
  unfolding check_order order_check
  Computes-order_check [] = Computes-pure tt
  Computes-order_check ((k, v) ∷ []) = Computes-pure tt
  Computes-order_check ((k, v) ∷ (l, w) ∷ m) = elim (Ordering-cases (cmp k l)) [
    | inl h ↦
        rw (h, order_check)
          (Computes-step (ctx.compare_keys k l) _ lt _ (compare_at ctx cmp context k l lt h)
            (Computes-order_check ((l, w) ∷ m)))
    | inr (inl h) ↦
        rw (h, order_check)
          (Computes-step (ctx.compare_keys k l) _ eq _ (compare_at ctx cmp context k l eq h)
            (Computes-lift (fail object invalid_input)))
    | inr (inr h) ↦
        rw (h, order_check)
          (Computes-step (ctx.compare_keys k l) _ gt _ (compare_at ctx cmp context k l gt h)
            (Computes-lift (fail object invalid_input)))
  ]

  order_check-IsSorted : (m : List (K × V)) → order_check m ≡ ok tt → IsSorted cmp m
  unfolding order_check
  order_check-IsSorted [] h = tt
  order_check-IsSorted ((k, v) ∷ []) h = (tt, tt)
  order_check-IsSorted ((k, v) ∷ (l, w) ∷ m) h = elim (Ordering-cases (cmp k l)) [
    | inl e ↦
        let rest = order_check-IsSorted ((l, w) ∷ m) (ground arith) in
        ((e, Above-trans cmp context.order k l m e rest.0), rest)
    | inr (inl e) ↦ absurd (ground arith)
    | inr (inr e) ↦ absurd (ground arith)
  ]

  order_check_fails :
      (m : List (K × V)) → (order_check m ≡ ok tt) ⊎ (order_check m ≡ fail object invalid_input)
  unfolding order_check
  order_check_fails [] = inl refl
  order_check_fails ((k, v) ∷ []) = inl refl
  order_check_fails ((k, v) ∷ (l, w) ∷ m) = ground (arith, order_check_fails ((l, w) ∷ m))

  -- At most 2^32 - 1 entries whose keys do not strictly rise are refused as invalid input. A budget
  -- may stop the check first with its own error; a free budget does not.
  pub Computes-from_map_unsorted :
      (m : List (K × V))
      → ¬ IsSorted cmp m
      → length m ≤ u32_max
      → Computes IsFree (from_map ctx m) (fail object invalid_input)
  unfolding from_map charge_scan
  Computes-from_map_unsorted m s h = elim (Bool-cases (ltb u32_max (length m))) [
    | inl e ↦ absurd (ground arith)
    | inr e ↦ rw e (
        Computes-step (charge_access ctx (length m)) _ tt _
          (Computes-access ctx cmp context (length m))
          (Computes-fail (check_order ctx m) _ (from_type_and_code object invalid_input)
            (elim (order_check_fails m) [
              | inl good ↦ absurd (s (order_check-IsSorted m good))
              | inr bad ↦ rw bad at (Computes-order_check m)
            ])))
  ]
