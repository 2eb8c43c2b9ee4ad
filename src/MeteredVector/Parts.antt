-- ===== src/MeteredVector/Parts.antt =====
-- Appending vectors and taking ranges of them.
use rs_stellar_contract_env.Prelude.{
  none, some, ◌&&◌, true, false, ℕ, ◌+◌, ◌-◌, ◌≤◌, ◌≡◌, List, ◌++◌, arith, length, take, drop, ltb,
  leb, if◌then◌else◌, Bool-cases, inl, inr, u32_max, length-append, length-take, length-drop,
}
use rs_stellar_contract_env.Error.{ok, err}
use rs_stellar_contract_env.Exec.{lift}
use rs_stellar_contract_env.Exec.Computes.{Computes, Computes-lift, Computes-step, Computes-fail}
use rs_stellar_contract_env.Budget.Charge.Free.{IsFree}
use rs_stellar_contract_env.MeteredClone.{MeteredClone, IsMetered}
use rs_stellar_contract_env.MeteredVector
use rs_stellar_contract_env.MeteredVector.{
  MeteredVector, vec_oob, from_exact_iter, add_or_err, sub_or_err, get_range,
}
use rs_stellar_contract_env.MeteredVector.Charges.{bounded, bounded_fits, Computes-from_exact_iter}

module _ {A : Type 0} where
  get_range_inside :
      (xs : List A) (start end : ℕ)
      → (leb start end && leb end (length xs)) ≡ true
      → get_range xs start end ≡ some (take (end - start) (drop start xs))
  unfolding get_range
  get_range_inside xs start end e = rw e

  get_range_outside :
      (xs : List A) (start end : ℕ)
      → (leb start end && leb end (length xs)) ≡ false
      → get_range xs start end ≡ none
  unfolding get_range
  get_range_outside xs start end e = rw e

module _ {A : Type 0} (elt : MeteredClone A) (vec_size : ℕ) (metered : IsMetered elt) where
  -- Appending one vector to another gives the list of both, unless it has more than 2^32 - 1
  -- elements: then the error of an index out of bounds. A budget may stop it first with its own
  -- error; a free budget does not.
  Computes-append :
      (self other : MeteredVector A)
      → length self.vec ≤ u32_max
      → length other.vec ≤ u32_max
      → Computes IsFree
          (MeteredVector.append elt vec_size self other)
          (bounded (self.vec ++ other.vec))
  unfolding MeteredVector.append add_or_err
  Computes-append self other h k =
      let n = length-append self.vec other.vec in
      elim (Bool-cases (ltb u32_max (length self.vec + length other.vec))) [
        | inl e ↦
            let over : add_or_err (length self.vec) (length other.vec) ≡ err vec_oob =
              ground arith in
            let full : leb (length (self.vec ++ other.vec)) u32_max ≡ false = ground arith in
            rw full (
              Computes-fail (lift (add_or_err (length self.vec) (length other.vec))) _ vec_oob
                (rw over (Computes-lift (err vec_oob))))
        | inr e ↦
            let fine : add_or_err (length self.vec) (length other.vec)
                ≡ ok (length self.vec + length other.vec) =
              ground arith in
            Computes-step (lift (add_or_err (length self.vec) (length other.vec))) _
              (length self.vec + length other.vec) _ (rw fine (Computes-lift _))
              (Computes-from_exact_iter elt vec_size metered (self.vec ++ other.vec))
      ]

  -- Where a range of a vector ends within it and does not start past its end, it is what `slice`
  -- gives: as many elements as the range is wide, from its start on. Any other range is the error
  -- of an index out of bounds.
  Computes-slice :
      (self : MeteredVector A) (start end : ℕ)
      → length self.vec ≤ u32_max
      → Computes IsFree (MeteredVector.slice elt vec_size self start end) (
          if leb start end && leb end (length self.vec)
          then ok (record { vec = take (end - start) (drop start self.vec) })
          else err vec_oob)
  unfolding MeteredVector.slice
  Computes-slice self start end h =
      let part = take (end - start) (drop start self.vec) in
      elim (Bool-cases (leb start end && leb end (length self.vec))) [
        | inl e ↦
            rw
              (
                e,
                MeteredVector.slice,
                get_range_inside self.vec start end e,
                ← bounded_fits part (
                    omega (
                      arith,
                      length-take (end - start) (drop start self.vec),
                      length-drop start self.vec,
                    )),
              )
              (Computes-from_exact_iter elt vec_size metered part)
        | inr e ↦
            rw (e, MeteredVector.slice, get_range_outside self.vec start end e)
              (Computes-lift (err vec_oob))
      ]
