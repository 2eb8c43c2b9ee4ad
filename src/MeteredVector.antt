-- ===== src/MeteredVector.antt =====
-- soroban-env-host/src/host/metered_vector.rs: the vector of host objects, whose operations charge
-- the budget and give a new vector. Positions are `usize`, of 64 bits.
pub mod Charges
pub mod Laws
pub mod Parts
pub mod Lookup
pub mod Search
use rs_stellar_contract_env.Prelude.{
  ℕ, zero, suc, ◌+◌, ◌-◌, ◌*◌, ◌/◌, Bool, true, false, Option, none, some, List, [], ◌∷◌, ◌++◌,
  Ordering, if◌then◌else◌, ltb, leb, ◌==◌, ◌||◌, length, get_elem?, set as set_elem, ◌&&◌, last,
  take, drop, u32_max, u64_max, checked_add, checked_sub, saturating_add, saturating_mul, min,
}
use rs_stellar_contract_env.Error.{
  HostError, Result, ok, err, fail, from_type_and_code, bind, ok_or, object, index_bounds,
  internal_error,
}
use rs_stellar_contract_env.Exec.{Exec, pure, lift, ◌>>=◌, ◌>>◌}
use rs_stellar_contract_env.Budget.CostType.{mem_cpy}
use rs_stellar_contract_env.Budget.Charge.{BudgetImpl, charge}
use rs_stellar_contract_env.MeteredClone.{MeteredClone, vec_clone, charge_deep_clone, metered_clone}
use rs_stellar_contract_env.MeteredMap.{Position, found, missing, bit_length}

pub record MeteredVector (A : Type 0) : Type 0 where
  pub vec : List A

-- `VEC_OOB`
abbrev pub vec_oob : HostError
vec_oob = from_type_and_code object index_bounds

-- `add_or_err` and `sub_or_err`
unfoldable pub add_or_err : ℕ → ℕ → Result ℕ
add_or_err x y =
    bind (ok_or (checked_add u64_max x y) vec_oob)
      λ sz. if ltb u32_max sz then err vec_oob else ok sz

unfoldable pub sub_or_err : ℕ → ℕ → Result ℕ
sub_or_err x y = ok_or (checked_sub x y) vec_oob

-- `vec.get(start..end)` of the standard library.
unfoldable pub get_range : {A : Type 0} → List A → ℕ → ℕ → Option (List A)
get_range xs start end =
    if leb start end && leb end (length xs) then some (take (end - start) (drop start xs)) else none

-- How the elements are cloned, and the declared size of a vector.
module _ {A : Type 0} (elt : MeteredClone A) (vec_size : ℕ) where
  unfoldable pub charge_access : ℕ → Exec BudgetImpl (Unit {0})
  charge_access count = charge mem_cpy (some (saturating_mul u64_max elt.declared_size count))

  unfoldable pub charge_scan : List A → Exec BudgetImpl (Unit {0})
  charge_scan xs = charge_access (length xs)

  unfoldable pub charge_binsearch : List A → Exec BudgetImpl (Unit {0})
  charge_binsearch xs = charge_access (1 + bit_length 64 (length xs))

  unfoldable pub from_vec : List A → Result (MeteredVector A)
  from_vec xs = if ltb u32_max (length xs) then err vec_oob else ok (record { vec = xs })

  -- The iterators of this file all know their size, which is the length of the list.
  unfoldable pub from_exact_iter : List A → Exec BudgetImpl (MeteredVector A)
  from_exact_iter xs =
      if ltb u32_max (length xs)
      then lift (err vec_oob)
      else do charge_deep_clone (vec_clone vec_size elt) xs; lift (from_vec xs)

  -- The result of `get_mut` written to: the clone with the new value.
  unfoldable pub set_at : List A → ℕ → A → Result (MeteredVector A)
  set_at xs index value =
      if ltb index (length xs) then ok (record { vec = set_elem index value xs }) else err vec_oob

  -- `MeteredVector::set`; a vector is cloned as the list that it holds.
  unfoldable pub set : MeteredVector A → ℕ → A → Exec BudgetImpl (MeteredVector A)
  set self index value = do
    new ← metered_clone (vec_clone vec_size elt) self.vec
    charge_access 1
    lift (set_at new index value)

  unfoldable pub get : MeteredVector A → ℕ → Exec BudgetImpl A
  get self index = do charge_access 1; lift (ok_or (get_elem? self.vec index) vec_oob)

  unfoldable pub push_front : MeteredVector A → A → Exec BudgetImpl (MeteredVector A)
  push_front self value =
      if length self.vec == u32_max then lift (err vec_oob) else from_exact_iter (value ∷ self.vec)

  unfoldable pub pop_front : MeteredVector A → Exec BudgetImpl (MeteredVector A)
  pop_front self =
      if length self.vec == 0 then lift (err vec_oob) else from_exact_iter (drop 1 self.vec)

  unfoldable pub push_back : MeteredVector A → A → Exec BudgetImpl (MeteredVector A)
  push_back self value =
      if length self.vec == u32_max
      then lift (err vec_oob)
      else from_exact_iter (self.vec ++ (value ∷ []))

  unfoldable pub pop_back : MeteredVector A → Exec BudgetImpl (MeteredVector A)
  pop_back self =
      if length self.vec == 0
      then lift (err vec_oob)
      else do count ← lift (sub_or_err (length self.vec) 1); from_exact_iter (take count self.vec)

  unfoldable pub remove : MeteredVector A → ℕ → Exec BudgetImpl (MeteredVector A)
  remove self idx =
      if leb (length self.vec) idx || idx == u64_max - 1 then lift (err vec_oob) else do
        skip ← lift (add_or_err idx 1)
        from_exact_iter (take idx self.vec ++ drop skip self.vec)

  unfoldable pub front : MeteredVector A → Exec BudgetImpl A
  front self = do charge_access 1; lift (ok_or (get_elem? self.vec 0) vec_oob)

  unfoldable pub back : MeteredVector A → Exec BudgetImpl A
  back self = do charge_access 1; lift (ok_or (last self.vec) vec_oob)

  unfoldable pub insert : MeteredVector A → ℕ → A → Exec BudgetImpl (MeteredVector A)
  insert self index value =
      let len = length self.vec in
      if len == u32_max
      then lift (err vec_oob)
      else if ltb len index
      then lift (err vec_oob)
      else if index == len
      then push_back self value
      else if index == 0
      then push_front self value
      else from_exact_iter (take index self.vec ++ ((value ∷ []) ++ drop index self.vec))

  unfoldable pub append : MeteredVector A → MeteredVector A → Exec BudgetImpl (MeteredVector A)
  append self other = do
    _ ← lift (add_or_err (length self.vec) (length other.vec))
    from_exact_iter (self.vec ++ other.vec)

  unfoldable pub slice : MeteredVector A → ℕ → ℕ → Exec BudgetImpl (MeteredVector A)
  slice self start end = elim (get_range self.vec start end) [
    | some part ↦ from_exact_iter part
    | none ↦ lift (err vec_oob)
  ]

  unfoldable pub to_vec : MeteredVector A → Exec BudgetImpl (List A)
  to_vec self = metered_clone (vec_clone vec_size elt) self.vec

  -- The loop of `first_index_of`, from the position `i` on.
  unfoldable pub first_from :
      (A → Exec BudgetImpl Ordering) → ℕ → List A → Exec BudgetImpl (Option ℕ)
  first_from f i [] = pure none
  first_from f i (x ∷ xs) = do
    ord ← f x
    elim ord [ Ordering.eq ↦ pure (some i) | _ ↦ first_from f (suc i) xs ]

  unfoldable pub first_index_of :
      MeteredVector A → (A → Exec BudgetImpl Ordering) → Exec BudgetImpl (Option ℕ)
  first_index_of self f = do charge_scan self.vec; first_from f 0 self.vec

  -- The loop of `last_index_of`, over the first `n` elements from the last to the first.
  unfoldable pub last_below :
      (A → Exec BudgetImpl Ordering) → ℕ → List A → Exec BudgetImpl (Option ℕ)
  last_below f zero xs = pure none
  last_below f (suc n) xs = do
    x ← lift (ok_or (get_elem? xs n) vec_oob)
    ord ← f x
    elim ord [ Ordering.eq ↦ pure (some n) | _ ↦ last_below f n xs ]

  unfoldable pub last_index_of :
      MeteredVector A → (A → Exec BudgetImpl Ordering) → Exec BudgetImpl (Option ℕ)
  last_index_of self f = do charge_scan self.vec; last_below f (length self.vec) self.vec

  -- `slice::binary_search_by` of the standard library, on the part from `left` up to `right`. A
  -- failing comparison ends the search, as the closure's `Ordering::Equal` does.
  unfoldable pub search_part :
      ℕ → (A → Exec BudgetImpl Ordering) → List A → ℕ → ℕ → Exec BudgetImpl Position
  search_part zero f xs left right = lift (fail object internal_error)
  search_part (suc fuel) f xs left right =
      let probe_half = (do
        let mid = left + (right - left) / 2
        probe ← lift (ok_or (get_elem? xs mid) vec_oob)
        ord ← f probe
        elim ord [
          | Ordering.lt ↦ search_part fuel f xs (mid + 1) right
          | Ordering.eq ↦ pure (found mid)
          | Ordering.gt ↦ search_part fuel f xs left mid
        ]) in
      if ltb left right then probe_half else pure (missing left)

  unfoldable pub binary_search_by :
      MeteredVector A → (A → Exec BudgetImpl Ordering) → Exec BudgetImpl Position
  binary_search_by self f = do
    charge_binsearch self.vec
    search_part (suc (length self.vec)) f self.vec 0 (length self.vec)
