-- ===== src/MeteredVector/Search.antt =====
-- The binary search of a vector, against what it is to find.
use Prim.Native.Nat.Ordering.{lt, eq, gt}
use rs_stellar_contract_env.Prelude.{
  ℕ, zero, suc, ◌+◌, ◌-◌, ◌/◌, ◌≤◌, ◌<◌, ◌≡◌, some, List, Ordering, arith, length, get_elem?, ltb,
  Bool-cases, inl, inr, get_elem?-lt, get_elem?_bound,
}
use rs_stellar_contract_env.Error.{ok, ok_or}
use rs_stellar_contract_env.Exec.{Exec, lift}
use rs_stellar_contract_env.Exec.Computes.{Computes, Computes-pure, Computes-lift, Computes-step}
use rs_stellar_contract_env.Budget.Charge.{BudgetImpl}
use rs_stellar_contract_env.Budget.Charge.Free.{IsFree}
use rs_stellar_contract_env.MeteredClone.{MeteredClone}
use rs_stellar_contract_env.MeteredMap.{Position, found, missing}
use rs_stellar_contract_env.MeteredMap.Order.{Ordering-cases, lt_or_eq}
use rs_stellar_contract_env.MeteredVector.{
  MeteredVector, vec_oob, search_part, binary_search_by, charge_binsearch,
}
use rs_stellar_contract_env.MeteredVector.Charges.{Computes-binsearch}

module _ {A : Type 0} (side : A → Ordering) where
  -- The elements before `n` are below what is sought.
  abbrev pub Lower : ℕ → List A → Type 0
  Lower n xs = (i : ℕ) (x : A) → i < n → get_elem? xs i ≡ some x → side x ≡ lt

  -- The elements from `n` on are above what is sought.
  abbrev pub Upper : ℕ → List A → Type 0
  Upper n xs = (i : ℕ) (x : A) → n ≤ i → get_elem? xs i ≡ some x → side x ≡ gt

  -- The vector rises past what is sought: an element at or above it has only such after it, and
  -- one at or below it only such before it.
  pub record IsPartitioned (xs : List A) : Type 0 where
    pub below :
        (i j : ℕ) (x y : A)
        → i < j
        → get_elem? xs i ≡ some x
        → get_elem? xs j ≡ some y
        → side y ≡ lt
        → side x ≡ lt
    pub above :
        (i j : ℕ) (x y : A)
        → i < j
        → get_elem? xs i ≡ some x
        → get_elem? xs j ≡ some y
        → side x ≡ gt
        → side y ≡ gt

  -- A position found holds an element that compares as equal; where none is found, the elements
  -- before the position compare as lower and the others as greater.
  abbrev pub IsAnswer : List A → Position → Type 0
  IsAnswer xs (found i) = (x : A) × (get_elem? xs i ≡ some x) × (side x ≡ eq)
  IsAnswer xs (missing i) = Lower i xs × Upper i xs

module _ {A : Type 0} (side : A → Ordering) where
  Lower-through :
      (xs : List A) (m : ℕ) (p : A)
      → IsPartitioned side xs
      → get_elem? xs m ≡ some p
      → side p ≡ lt
      → Lower side (m + 1) xs
  Lower-through xs m p s g h i x le k = elim (lt_or_eq i m (omega arith)) [
    | inl less ↦ s.below i m x p less k g h
    | inr same ↦ cc
  ]

  Upper-through :
      (xs : List A) (m : ℕ) (p : A)
      → IsPartitioned side xs
      → get_elem? xs m ≡ some p
      → side p ≡ gt
      → Upper side m xs
  Upper-through xs m p s g h i x le k = elim (lt_or_eq m i le) [
    | inl less ↦ s.above m i p x less g k h
    | inr same ↦ cc
  ]

module _ {A : Type 0} (elt : MeteredClone A) (vec_size : ℕ) (f : A → Exec BudgetImpl Ordering)
    (side : A → Ordering) (compares : (x : A) → Computes IsFree (f x) (ok (side x))) where
  compare_at : (x : A) (o : Ordering) → side x ≡ o → Computes IsFree (f x) (ok o)
  compare_at x o h = rw (← h) (compares x)

  lift-some :
      (xs : List A) (i : ℕ) (x : A)
      → get_elem? xs i ≡ some x
      → Computes IsFree (lift (ok_or (get_elem? xs i) vec_oob)) (ok x)
  lift-some xs i x g = rw g (Computes-lift (ok x))

  search_part_lem :
      (fuel : ℕ) (xs : List A) (left right : ℕ)
      → right - left < fuel
      → left ≤ right
      → right ≤ length xs
      → IsPartitioned side xs
      → Lower side left xs
      → Upper side right xs
      → (p : Position) × Computes IsFree (search_part elt vec_size fuel f xs left right) (ok p)
        × IsAnswer side xs p
  unfolding search_part
  search_part_lem zero xs left right d le len s lo up = absurd (omega arith)
  search_part_lem (suc fuel) xs left right d le len s lo up = elim (Bool-cases (ltb left right)) [
    | inr e ↦ (
      missing left,
      rw e (Computes-pure (missing left)),
      (lo, λ i x p g. up i x (ground arith) g),
    )
    | inl e ↦
        let mid = left + (right - left) / 2 in
        let less : left < right = ground arith in
        let (p, g) = get_elem?-lt xs mid (omega arith) in
        elim (Ordering-cases (side p)) [
          | inl h ↦
              let (r, c, a) =
                search_part_lem fuel xs (mid + 1) right (omega arith) (omega arith) len s
                  (Lower-through side xs mid p s g h) up in
              (
                r,
                rw e (
                    Computes-step (lift (ok_or (get_elem? xs mid) vec_oob)) _ p (ok r)
                      (lift-some xs mid p g)
                      (Computes-step (f p) _ lt (ok r) (compare_at p lt h) c)),
                a,
              )
          | inr (inl h) ↦ (
            found mid,
            rw e (
                Computes-step (lift (ok_or (get_elem? xs mid) vec_oob)) _ p (ok (found mid))
                  (lift-some xs mid p g)
                  (Computes-step (f p) _ eq (ok (found mid)) (compare_at p eq h)
                    (Computes-pure (found mid)))),
            (p, g, h),
          )
          | inr (inr h) ↦
              let (r, c, a) =
                search_part_lem fuel xs left mid (omega arith) (omega arith) (omega arith) s lo
                  (Upper-through side xs mid p s g h) in
              (
                r,
                rw e (
                    Computes-step (lift (ok_or (get_elem? xs mid) vec_oob)) _ p (ok r)
                      (lift-some xs mid p g)
                      (Computes-step (f p) _ gt (ok r) (compare_at p gt h) c)),
                a,
              )
        ]
  ]

  -- On a vector that rises past what is sought, the binary search ends, within the fuel of its
  -- definition, at a position that is an answer: an element there compares as equal, or there is
  -- none and the position is where it would go. A budget may stop it first with its own error; a
  -- free budget does not.
  pub Computes-binary_search_by :
      (self : MeteredVector A)
      → IsPartitioned side self.vec
      → (p : Position) × Computes IsFree (binary_search_by elt vec_size self f) (ok p)
        × IsAnswer side self.vec p
  unfolding binary_search_by
  Computes-binary_search_by self s =
      let (p, c, a) =
        search_part_lem (suc (length self.vec)) self.vec 0 (length self.vec) (omega arith)
          (omega arith) (omega arith) s (λ i x h g. elim h [ ])
          (λ i x h g. absurd (get_elem?_bound self.vec i x g h)) in
      (
        p,
        Computes-step (charge_binsearch elt vec_size self.vec) _ tt (ok p)
            (Computes-binsearch elt vec_size self.vec) c,
        a,
      )
