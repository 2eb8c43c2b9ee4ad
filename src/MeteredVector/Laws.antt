-- ===== src/MeteredVector/Laws.antt =====
-- What the operations of the vector compute, as operations on the list of its elements.
use rs_stellar_contract_env.Prelude.{
  ◌||◌, true, ◌∙◌, ap, ◌⊎◌, false, ℕ, zero, suc, ◌+◌, ◌-◌, ◌≤◌, ◌<◌, ◌≡◌, refl, List, [], ◌∷◌, ◌++◌,
  arith, length, take, drop, ltb, leb, ◌==◌, Bool-cases, inl, inr, u32_max, u64_max, length-append,
}
use rs_stellar_contract_env.Error.{ok, err}
use rs_stellar_contract_env.Exec.{lift, ◌>>=◌}
use rs_stellar_contract_env.Exec.Computes.{Computes, Computes-lift, Computes-step}
use rs_stellar_contract_env.Budget.Charge.Free.{IsFree}
use rs_stellar_contract_env.MeteredClone.{MeteredClone, IsMetered}
use mathlib.Core.Path.{subst}
use rs_stellar_contract_env.MeteredVector
use rs_stellar_contract_env.MeteredVector.{
  MeteredVector, vec_oob, from_exact_iter, add_or_err, sub_or_err, get_range,
}
use rs_stellar_contract_env.MeteredVector.Charges.{bounded, bounded_fits, Computes-from_exact_iter}

-- The list with an element more at a position, and with one less.
abbrev pub inserted : {A : Type 0} → ℕ → A → List A → List A
inserted i x xs = take i xs ++ (x ∷ drop i xs)

abbrev pub removed : {A : Type 0} → ℕ → List A → List A
removed i xs = take i xs ++ drop (suc i) xs

module _ {A : Type 0} where
  pub inserted_end : (x : A) (xs : List A) → inserted (length xs) x xs ≡ xs ++ (x ∷ [])
  inserted_end x [] = refl
  inserted_end x (y ∷ xs) = rw (inserted_end x xs)

  pub length-inserted :
      (i : ℕ) (x : A) (xs : List A) → i ≤ length xs → length (inserted i x xs) ≡ length xs + 1
  length-inserted zero x xs h = omega arith
  length-inserted (suc i) x [] h = absurd (omega arith)
  length-inserted (suc i) x (y ∷ xs) h = omega (arith, length-inserted i x xs)

  pub removed-inserted :
      (i : ℕ) (x : A) (xs : List A) → i ≤ length xs → removed i (inserted i x xs) ≡ xs
  removed-inserted zero x xs h = refl
  removed-inserted (suc i) x [] h = absurd (omega arith)
  removed-inserted (suc i) x (y ∷ xs) h = rw (removed-inserted i x xs (omega arith))

  pub length-removed : (i : ℕ) (xs : List A) → length (removed i xs) ≤ length xs
  length-removed zero [] = omega arith
  length-removed zero (x ∷ xs) = omega arith
  length-removed (suc i) [] = omega arith
  length-removed (suc i) (x ∷ xs) = omega (arith, length-removed i xs)

  pub take-append-drop : (n : ℕ) (xs : List A) → take n xs ++ drop n xs ≡ xs
  take-append-drop zero xs = refl
  take-append-drop (suc n) [] = refl
  take-append-drop (suc n) (x ∷ xs) = rw (take-append-drop n xs)

module _ {A : Type 0} (elt : MeteredClone A) (vec_size : ℕ) (metered : IsMetered elt) where
  Computes-push_back :
      (self : MeteredVector A) (x : A)
      → length self.vec ≤ u32_max
      → Computes IsFree
          (MeteredVector.push_back elt vec_size self x)
          (bounded (self.vec ++ (x ∷ [])))
  unfolding MeteredVector.push_back
  Computes-push_back self x h = elim (Bool-cases (length self.vec == u32_max)) [
    | inl e ↦
        let full : leb (length (self.vec ++ (x ∷ []))) u32_max ≡ false =
          ground (arith, length-append self.vec (x ∷ [])) in
        rw (e, full) (Computes-lift (err vec_oob))
    | inr e ↦ rw e (Computes-from_exact_iter elt vec_size metered (self.vec ++ (x ∷ [])))
  ]

  Computes-push_front :
      (self : MeteredVector A) (x : A)
      → length self.vec ≤ u32_max
      → Computes IsFree (MeteredVector.push_front elt vec_size self x) (bounded (x ∷ self.vec))
  unfolding MeteredVector.push_front
  Computes-push_front self x h = elim (Bool-cases (length self.vec == u32_max)) [
    | inl e ↦
        let full : leb (length (x ∷ self.vec)) u32_max ≡ false = ground arith in
        rw (e, full) (Computes-lift (err vec_oob))
    | inr e ↦ rw e (Computes-from_exact_iter elt vec_size metered (x ∷ self.vec))
  ]

  -- On a vector with room, an insertion at a position up to the length puts the element there and
  -- moves the later ones up.
  pub Computes-insert_at :
      (self : MeteredVector A) (i : ℕ) (x : A)
      → length self.vec < u32_max
      → i ≤ length self.vec
      → Computes IsFree
          (MeteredVector.insert elt vec_size self i x)
          (ok (record { vec = inserted i x self.vec }))
  unfolding MeteredVector.insert
  Computes-insert_at self i x h l =
      let room : (length self.vec == u32_max) ≡ false = ground arith in
      let inside : ltb (length self.vec) i ≡ false = ground arith in
      let fits =
        bounded_fits (inserted i x self.vec) (omega (arith, length-inserted i x self.vec)) in
      elim (Bool-cases (i == length self.vec)) [
        | inl e ↦
            let same : inserted i x self.vec ≡ self.vec ++ (x ∷ []) =
              ap (λ n. inserted n x self.vec) {y = length self.vec} (ground arith)
              ∙ inserted_end x self.vec in
            rw (room, inside, e, ← fits, same) (Computes-push_back self x (omega arith))
        | inr e ↦ elim (Bool-cases (i == 0)) [
          | inl z ↦
              let first : inserted i x self.vec ≡ x ∷ self.vec =
                ap (λ n. inserted n x self.vec) {y = 0} (ground arith) in
              rw (room, inside, e, z, ← fits, first) (Computes-push_front self x (omega arith))
          | inr z ↦
              rw (room, inside, e, z, ← fits)
                (Computes-from_exact_iter elt vec_size metered (inserted i x self.vec))
        ]
      ]

  -- Past the end, or on a full vector, an insertion is the error of an index out of bounds.
  pub Computes-insert_oob :
      (self : MeteredVector A) (i : ℕ) (x : A)
      → (length self.vec ≡ u32_max) ⊎ (length self.vec < i)
      → Computes IsFree (MeteredVector.insert elt vec_size self i x) (err vec_oob)
  unfolding MeteredVector.insert
  Computes-insert_oob self i x (inl h) =
      let full : (length self.vec == u32_max) ≡ true = ground arith in
      rw full (Computes-lift (err vec_oob))
  Computes-insert_oob self i x (inr h) =
      let outside : ltb (length self.vec) i ≡ true = ground arith in
      elim (Bool-cases (length self.vec == u32_max)) [
        | inl e ↦ rw e (Computes-lift (err vec_oob))
        | inr e ↦ rw (e, outside) (Computes-lift (err vec_oob))
      ]

  pub Computes-remove_at :
      (self : MeteredVector A) (i : ℕ)
      → length self.vec ≤ u32_max
      → i < length self.vec
      → Computes IsFree
          (MeteredVector.remove elt vec_size self i)
          (ok (record { vec = removed i self.vec }))
  unfolding MeteredVector.remove add_or_err
  Computes-remove_at self i h l =
      let inside : (leb (length self.vec) i || i == u64_max - 1) ≡ false = ground arith in
      let step : add_or_err i 1 ≡ ok (suc i) = ground arith in
      rw inside (
        Computes-step (lift (add_or_err i 1)) _ (suc i) _ (rw step (Computes-lift (ok (suc i)))) (
          rw (← bounded_fits (removed i self.vec) (omega (arith, length-removed i self.vec)))
            (Computes-from_exact_iter elt vec_size metered (removed i self.vec))))

  -- On a vector with room, inserting an element at a position up to the length and removing what is
  -- at that position gives the vector back. A budget may stop it first with its own error; a free
  -- budget does not.
  pub Computes-insert-remove :
      (self : MeteredVector A) (i : ℕ) (x : A)
      → length self.vec < u32_max
      → i ≤ length self.vec
      → Computes IsFree
          (MeteredVector.insert elt vec_size self i x >>= λ v.
            MeteredVector.remove elt vec_size v i)
          (ok self)
  Computes-insert-remove self i x h l =
      let longer = length-inserted i x self.vec l in
      subst
        (λ xs.
          Computes IsFree
            (MeteredVector.insert elt vec_size self i x >>= λ v.
              MeteredVector.remove elt vec_size v i)
            (ok (record { vec = xs })))
        (removed-inserted i x self.vec l)
        (Computes-step (MeteredVector.insert elt vec_size self i x) _
          (record { vec = inserted i x self.vec }) _ (Computes-insert_at self i x h l)
          (Computes-remove_at (record { vec = inserted i x self.vec }) i (omega arith)
            (omega arith)))
