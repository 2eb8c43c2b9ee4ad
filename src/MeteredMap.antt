-- ===== src/MeteredMap.antt =====
-- soroban-env-host/src/host/metered_map.rs: the ordered map, a vector of entries sorted by key,
-- whose operations charge the budget.
pub mod Order
pub mod Spec
pub mod Laws
pub mod Refine
pub mod Build
pub mod Query
pub mod Write
pub mod RoundTrip
use mathlib.Core.List
use rs_stellar_contract_env.Prelude.{
  ℕ, zero, suc, ◌+◌, ◌-◌, ◌*◌, ◌/◌, Bool, true, false, Option, none, some, List, [], ◌∷◌, ◌++◌,
  Ordering, if◌then◌else◌, ltb, leb, ◌==◌, length, get_elem?, take, drop, u32_max, u64_max,
  saturating_add, saturating_mul, saturating_sub,
}
use rs_stellar_contract_env.Error.{
  HostError, Result, ok, err, fail, from_type_and_code, ok_or, object, index_bounds, invalid_input,
  internal_error,
}
use rs_stellar_contract_env.Exec.{Exec, pure, lift, ◌>>=◌, ◌>>◌}
use rs_stellar_contract_env.Budget.CostType.{mem_cpy}
use rs_stellar_contract_env.Budget.Charge.{BudgetImpl, charge}
use rs_stellar_contract_env.MeteredClone.{MeteredClone, vec_clone, charge_deep_clone, metered_clone}

pub record MeteredOrdMap (K V : Type 0) : Type 0 where
  pub map : List (K × V)

-- What the map takes from its type parameters: how entries and values are cloned, the declared
-- size of a vector, and the comparison of `Ctx: Compare<K>`.
pub record Ctx (K V : Type 0) : Type 0 where
  pub entry : MeteredClone (K × V)
  pub value : MeteredClone V
  pub vec_size : ℕ
  pub compare_keys : K → K → Exec BudgetImpl Ordering

-- `MAP_OOB`
abbrev pub map_oob : HostError
map_oob = from_type_and_code object index_bounds

-- The result of a search, `Result<usize, usize>`: the position, or where the key would go.
pub data Position : Type 0 where
  found : ℕ → Position
  missing : ℕ → Position

-- 64 less the leading zeros of a 64-bit number: its length in bits.
unfoldable pub bit_length : ℕ → ℕ → ℕ
bit_length zero n = 0
bit_length (suc w) n = if n == 0 then 0 else suc (bit_length w (n / 2))

module _ {K V : Type 0} (ctx : Ctx K V) where
  unfoldable pub charge_access : ℕ → Exec BudgetImpl (Unit {0})
  charge_access count = charge mem_cpy (some (saturating_mul u64_max ctx.entry.declared_size count))

  unfoldable pub charge_scan : List (K × V) → Exec BudgetImpl (Unit {0})
  charge_scan m = charge_access (length m)

  unfoldable pub charge_binsearch : List (K × V) → Exec BudgetImpl (Unit {0})
  charge_binsearch m =
      let mag = bit_length 64 (length m) in
      charge mem_cpy
        (some (saturating_mul u64_max ctx.entry.declared_size (saturating_add u32_max mag 1)))

  -- The loop over `windows(2)`
  unfoldable pub check_order : List (K × V) → Exec BudgetImpl (Unit {0})
  check_order [] = pure tt
  check_order ((k, v) ∷ []) = pure tt
  check_order ((k, v) ∷ (l, w) ∷ m) = do
    ord ← ctx.compare_keys k l
    elim ord [ Ordering.lt ↦ check_order ((l, w) ∷ m) | _ ↦ lift (fail object invalid_input) ]

  unfoldable pub from_map : List (K × V) → Exec BudgetImpl (MeteredOrdMap K V)
  from_map m =
      if ltb u32_max (length m)
      then lift (err map_oob)
      else do charge_scan m; check_order m; pure (record { map = m })

  -- The iterators of this file all know their size, which is the length of the list.
  unfoldable pub from_exact_iter : List (K × V) → Exec BudgetImpl (MeteredOrdMap K V)
  from_exact_iter m =
      if ltb u32_max (length m)
      then lift (err map_oob)
      else do charge_deep_clone (vec_clone ctx.vec_size ctx.entry) m; from_map m

  -- `slice::binary_search_by` of the standard library, on the part from `left` up to `right`. A
  -- failing comparison ends the search, as the closure's `Ordering::Equal` does.
  unfoldable pub binary_search : ℕ → List (K × V) → K → ℕ → ℕ → Exec BudgetImpl Position
  binary_search zero m key left right = lift (fail object internal_error)
  binary_search (suc fuel) m key left right =
      let probe_half = (do
        let mid = left + (right - left) / 2
        probe ← lift (ok_or (get_elem? m mid) map_oob)
        ord ← ctx.compare_keys probe.0 key
        elim ord [
          | Ordering.lt ↦ binary_search fuel m key (mid + 1) right
          | Ordering.eq ↦ pure (found mid)
          | Ordering.gt ↦ binary_search fuel m key left mid
        ]) in
      if ltb left right then probe_half else pure (missing left)

  unfoldable pub find : List (K × V) → K → Exec BudgetImpl Position
  find m key = do charge_binsearch m; binary_search (suc (length m)) m key 0 (length m)

  -- Where the key is present its entry is replaced, else the entry is put where it belongs; a full
  -- map takes no new entry.
  unfoldable pub insert_at : List (K × V) → K → V → Position → Exec BudgetImpl (MeteredOrdMap K V)
  insert_at m key value (found replace_pos) =
      if replace_pos == u64_max - 1
      then lift (err map_oob)
      else from_exact_iter
          (take replace_pos m ++ ((key, value) ∷ drop (saturating_add u64_max replace_pos 1) m))
  insert_at m key value (missing insert_pos) =
      if length m == u32_max
      then lift (err map_oob)
      else from_exact_iter (take insert_pos m ++ ((key, value) ∷ drop insert_pos m))

  unfoldable pub insert : MeteredOrdMap K V → K → V → Exec BudgetImpl (MeteredOrdMap K V)
  insert self key value = do
    charge_access 1
    position ← find self.map key
    insert_at self.map key value position

  unfoldable pub get_at : List (K × V) → Position → Exec BudgetImpl (Option V)
  get_at m (found i) = do
    charge_access 1
    e ← lift (ok_or (get_elem? m i) (from_type_and_code object internal_error))
    pure (some e.1)
  get_at m (missing i) = pure none

  unfoldable pub get : MeteredOrdMap K V → K → Exec BudgetImpl (Option V)
  get self key = do position ← find self.map key; get_at self.map position

  unfoldable pub get_at_index : MeteredOrdMap K V → ℕ → Exec BudgetImpl (K × V)
  get_at_index self index = do charge_access 1; lift (ok_or (get_elem? self.map index) map_oob)

  -- The new map is built before the removed value is read; at position 0 there is no prefix.
  unfoldable pub remove_at :
      List (K × V) → Position → Exec BudgetImpl (Option (MeteredOrdMap K V × V))
  remove_at m (found i) = do
    let rest = if ltb 0 i then take i m ++ drop (saturating_add u64_max i 1) m else drop 1 m
    new ← from_exact_iter rest
    e ← lift (ok_or (get_elem? m i) (from_type_and_code object internal_error))
    v ← metered_clone ctx.value e.1
    pure (some (new, v))
  remove_at m (missing i) = pure none

  unfoldable pub remove : MeteredOrdMap K V → K → Exec BudgetImpl (Option (MeteredOrdMap K V × V))
  remove self key = do position ← find self.map key; remove_at self.map position

  abbrev is_found : Position → Bool
  is_found (found i) = true
  is_found (missing i) = false

  unfoldable pub contains_key : MeteredOrdMap K V → K → Exec BudgetImpl Bool
  contains_key self key = do position ← find self.map key; pure (is_found position)

  unfoldable pub len : MeteredOrdMap K V → ℕ
  len self = length self.map

  unfoldable pub keys : MeteredOrdMap K V → Exec BudgetImpl (List K)
  keys self = do charge_scan self.map; pure (List.map (λ e. e.0) self.map)

  unfoldable pub values : MeteredOrdMap K V → Exec BudgetImpl (List V)
  values self = do charge_scan self.map; pure (List.map (λ e. e.1) self.map)

  unfoldable pub iter : MeteredOrdMap K V → Exec BudgetImpl (List (K × V))
  iter self = do charge_scan self.map; pure self.map
