-- ===== src/MeteredVector/Lookup.antt =====
-- The scans of a vector for the first and for the last element that compares as equal.
use Prim.Native.Nat.Ordering.{lt, eq, gt}
use rs_stellar_contract_env.Prelude.{
  ℕ, zero, suc, ◌+◌, ◌≤◌, ◌<◌, ◌≡◌, refl, none, some, Option, List, [], ◌∷◌, Ordering, arith,
  length, get_elem?, inl, inr, get_elem?-lt,
}
use rs_stellar_contract_env.Error.{ok, ok_or}
use rs_stellar_contract_env.Exec.{Exec, lift}
use rs_stellar_contract_env.Exec.Computes.{Computes, Computes-pure, Computes-lift, Computes-step}
use rs_stellar_contract_env.Budget.Charge.{BudgetImpl}
use rs_stellar_contract_env.Budget.Charge.Free.{IsFree}
use rs_stellar_contract_env.MeteredClone.{MeteredClone}
use rs_stellar_contract_env.MeteredMap.Order.{Ordering-cases, lt_or_eq}
use rs_stellar_contract_env.MeteredVector.{
  MeteredVector, vec_oob, first_from, first_index_of, last_below, last_index_of, charge_scan,
}
use rs_stellar_contract_env.MeteredVector.Charges.{Computes-access}

module _ {A : Type 0} (side : A → Ordering) where
  -- No element at a position from `a` up to `b` compares as equal.
  abbrev pub Unmatched : ℕ → ℕ → List A → Type 0
  Unmatched a b xs = (i : ℕ) (x : A) → a ≤ i → i < b → get_elem? xs i ≡ some x → ¬ (side x ≡ eq)

  abbrev pub Matched : ℕ → List A → Type 0
  Matched i xs = (x : A) × (get_elem? xs i ≡ some x) × (side x ≡ eq)

  -- The first position that compares as equal, or that there is none.
  abbrev pub IsFirst : List A → Option ℕ → Type 0
  IsFirst xs none = Unmatched 0 (length xs) xs
  IsFirst xs (some i) = Matched i xs × Unmatched 0 i xs

  -- The last position that compares as equal, or that there is none.
  abbrev pub IsLast : List A → Option ℕ → Type 0
  IsLast xs none = Unmatched 0 (length xs) xs
  IsLast xs (some i) = Matched i xs × Unmatched (i + 1) (length xs) xs

  -- The first position of a list, counted from `k`.
  abbrev FirstFrom : ℕ → List A → Option ℕ → Type 0
  FirstFrom k xs none = Unmatched 0 (length xs) xs
  FirstFrom k xs (some i) = (j : ℕ) × (i ≡ k + j) × Matched j xs × Unmatched 0 j xs

  Unmatched-cons :
      (x : A) (xs : List A) (n : ℕ)
      → ¬ (side x ≡ eq)
      → Unmatched 0 n xs
      → Unmatched 0 (suc n) (x ∷ xs)
  Unmatched-cons x xs n h u zero y a b g = λ e. h (cc (e, g))
  Unmatched-cons x xs n h u (suc i) y a b g = u i y (omega arith) (omega arith) g

  FirstFrom-cons :
      (k : ℕ) (x : A) (xs : List A) (o : Option ℕ)
      → ¬ (side x ≡ eq)
      → FirstFrom (suc k) xs o
      → FirstFrom k (x ∷ xs) o
  FirstFrom-cons k x xs none h u = Unmatched-cons x xs (length xs) h u
  FirstFrom-cons k x xs (some i) h (j, e, m, u) = (suc j, omega arith, m, Unmatched-cons x xs j h u)

  FirstFrom-IsFirst : (xs : List A) (o : Option ℕ) → FirstFrom 0 xs o → IsFirst xs o
  FirstFrom-IsFirst xs none u = u
  FirstFrom-IsFirst xs (some i) (j, e, (x, g, h), u) =
      let s : i ≡ j = omega arith in ((x, cc, h), λ k y a b. u k y a (omega arith))

module _ {A : Type 0} (elt : MeteredClone A) (vec_size : ℕ) (f : A → Exec BudgetImpl Ordering)
    (side : A → Ordering) (compares : (x : A) → Computes IsFree (f x) (ok (side x))) where
  compare_at : (x : A) (o : Ordering) → side x ≡ o → Computes IsFree (f x) (ok o)
  compare_at x o h = rw (← h) (compares x)

  -- A position within the list, and what is known of the positions before it and behind it.
  first_from_lem :
      (k : ℕ) (xs : List A)
      → (o : Option ℕ) × Computes IsFree (first_from elt vec_size f k xs) (ok o)
        × FirstFrom side k xs o
  unfolding first_from
  first_from_lem k [] = (none, Computes-pure none, λ i x a b g. absurd (omega arith))
  first_from_lem k (x ∷ xs) =
      let (o, c, a) = first_from_lem (suc k) xs in
      elim (Ordering-cases (side x)) [
        | inl h ↦ (
          o,
          Computes-step (f x) _ lt (ok o) (compare_at x lt h) c,
          FirstFrom-cons side k x xs o (λ e. cc) a,
        )
        | inr (inl h) ↦ (
          some k,
          Computes-step (f x) _ eq (ok (some k)) (compare_at x eq h) (Computes-pure (some k)),
          (0, omega arith, (x, refl, h), λ i y p q. absurd (omega arith)),
        )
        | inr (inr h) ↦ (
          o,
          Computes-step (f x) _ gt (ok o) (compare_at x gt h) c,
          FirstFrom-cons side k x xs o (λ e. cc) a,
        )
      ]

  -- Below a position that does not match, and where nothing from it on does.
  extend_down :
      (n : ℕ) (xs : List A) (x : A)
      → get_elem? xs n ≡ some x
      → ¬ (side x ≡ eq)
      → Unmatched side (suc n) (length xs) xs
      → Unmatched side n (length xs) xs
  extend_down n xs x g h u i y a b k = elim (lt_or_eq n i a) [
    | inl less ↦ u i y (omega arith) b k
    | inr same ↦ λ e. h (cc (e, same, g, k))
  ]

  last_below_lem :
      (n : ℕ) (xs : List A)
      → n ≤ length xs
      → Unmatched side n (length xs) xs
      → (o : Option ℕ) × Computes IsFree (last_below elt vec_size f n xs) (ok o) × IsLast side xs o
  unfolding last_below
  last_below_lem zero xs l u = (none, Computes-pure none, u)
  last_below_lem (suc n) xs l u =
      let (x, g) = get_elem?-lt xs n (omega arith) in
      let at : Computes IsFree (lift (ok_or (get_elem? xs n) vec_oob)) (ok x) =
        rw g (Computes-lift (ok x)) in
      elim (Ordering-cases (side x)) [
        | inl h ↦
            let (o, c, a) = last_below_lem n xs (omega arith) (extend_down n xs x g (λ e. cc) u) in
            (
              o,
              Computes-step (lift (ok_or (get_elem? xs n) vec_oob)) _ x (ok o) at
                  (Computes-step (f x) _ lt (ok o) (compare_at x lt h) c),
              a,
            )
        | inr (inl h) ↦ (
          some n,
          Computes-step (lift (ok_or (get_elem? xs n) vec_oob)) _ x (ok (some n)) at
              (Computes-step (f x) _ eq (ok (some n)) (compare_at x eq h) (Computes-pure (some n))),
          ((x, g, h), λ i y a. u i y (omega arith)),
        )
        | inr (inr h) ↦
            let (o, c, a) = last_below_lem n xs (omega arith) (extend_down n xs x g (λ e. cc) u) in
            (
              o,
              Computes-step (lift (ok_or (get_elem? xs n) vec_oob)) _ x (ok o) at
                  (Computes-step (f x) _ gt (ok o) (compare_at x gt h) c),
              a,
            )
      ]

  -- Where the comparison is metered, the scan from the front gives the first position whose element
  -- compares as equal and the scan from the back the last one, or both that there is none. A budget
  -- may stop them first with its own error; a free budget does not.
  pub Computes-index_of :
      (self : MeteredVector A)
      → ((o : Option ℕ) × Computes IsFree (first_index_of elt vec_size self f) (ok o)
          × IsFirst side self.vec o)
        × ((o : Option ℕ) × Computes IsFree (last_index_of elt vec_size self f) (ok o)
            × IsLast side self.vec o)
  unfolding first_index_of last_index_of charge_scan
  Computes-index_of self =
      let (o, c, a) = first_from_lem 0 self.vec in
      let (p, d, b) =
        last_below_lem (length self.vec) self.vec (omega arith) (λ i x k l. absurd (omega arith)) in
      (
        (
          o,
          Computes-step (charge_scan elt vec_size self.vec) _ tt (ok o)
              (Computes-access elt vec_size (length self.vec)) c,
          FirstFrom-IsFirst side self.vec o a,
        ),
        (
          p,
          Computes-step (charge_scan elt vec_size self.vec) _ tt (ok p)
              (Computes-access elt vec_size (length self.vec)) d,
          b,
        ),
      )
