-- ===== src/MeteredMap/Write.antt =====
-- Insertion and removal in the metered map, against the entry-by-entry reading.
use mathlib.Core.Path.{subst}
use rs_stellar_contract_env.Prelude.{
  ℕ, zero, suc, ◌-◌, ◌≤◌, ◌<◌, ◌≡◌, refl, ap, true, false, Option, none, some, List, ◌∷◌, ◌++◌,
  Ordering, arith, length, take, drop, ltb, leb, ◌==◌, u32_max, u64_max, if◌then◌else◌, ◌⊎◌, inl,
  inr, saturating_add, get_elem?-lt, length-append, length-take, length-drop, ◌∙◌,
}
use rs_stellar_contract_env.Error.{Result, ok, err}
use rs_stellar_contract_env.Exec.{lift}
use rs_stellar_contract_env.Exec.Computes.{Computes, Computes-pure, Computes-lift, Computes-step}
use rs_stellar_contract_env.Budget.Charge.Free.{IsFree}
use rs_stellar_contract_env.MeteredClone.{Computes-metered_clone, metered_clone}
use rs_stellar_contract_env.MeteredMap
use rs_stellar_contract_env.MeteredMap.{
  MeteredOrdMap, Ctx, Position, found, missing, map_oob, charge_access, charge_scan, check_order,
  from_map, from_exact_iter, find, insert_at, get_at, remove_at, is_found,
}
use rs_stellar_contract_env.MeteredMap.Order.{IsSorted, position}
use rs_stellar_contract_env.MeteredMap.Spec
use rs_stellar_contract_env.MeteredMap.Spec.{
  entry_at, put_at, erase_at, put_at-position, erase_at-position, entry_at-position,
  insert-IsSorted, Above-trans,
}
use rs_stellar_contract_env.MeteredMap.Laws.{erase-IsSorted, length-insert}
use rs_stellar_contract_env.MeteredMap.Refine.{IsContext, Computes-access, Computes-find}
use rs_stellar_contract_env.MeteredMap.Build.{Computes-from_exact_iter}
use rs_stellar_contract_env.MeteredMap.Query.{position_bound}

le_or_lt : (a b : ℕ) → (a ≤ b) ⊎ (b < a)
le_or_lt a b = omega arith

leb-true : {a b : ℕ} → a ≤ b → leb a b ≡ true
leb-true h = ground arith

leb-false : {a b : ℕ} → b < a → leb a b ≡ false
leb-false h = ground arith

-- What a removal returns: the map that is left and the value that was there, or nothing.
abbrev pub removal : {K V : Type 0} → List (K × V) → Option V → Option (MeteredOrdMap K V × V)
removal rest (some v) = some (record { map = rest }, v)
removal rest none = none

-- A map, where its length is at most 2^32 - 1, and otherwise the error that the map is full.
abbrev pub bounded : {K V : Type 0} → List (K × V) → Result (MeteredOrdMap K V)
bounded m = if leb (length m) u32_max then ok (record { map = m }) else err map_oob

module _ {K V : Type 0} (ctx : Ctx K V) (cmp : K → K → Ordering) (context : IsContext ctx cmp) where
  insert_at-Computes :
      (m : List (K × V)) (key : K) (value : V) (p : Position)
      → ((i : ℕ) → p ≡ found i → i < length m)
      → length m ≤ u32_max
      → IsSorted cmp (put_at cmp key value m p)
      → length (put_at cmp key value m p) ≤ u32_max
      → Computes IsFree
          (insert_at ctx m key value p)
          (ok (record { map = put_at cmp key value m p }))
  unfolding insert_at
  insert_at-Computes m key value (found i) b h s l =
      let small = b i refl in
      let fits : (i == u64_max - 1) ≡ false = ground arith in
      let next : saturating_add u64_max i 1 ≡ suc i = ground arith in
      rw (fits, next) (Computes-from_exact_iter ctx cmp context _ s l)
  insert_at-Computes m key value (missing i) b h s l =
      let fits : (length m == u32_max) ≡ false = ground (
        arith,
        length-append (take i m) ((key, value) ∷ drop i m),
        length-take i m,
        length-drop i m,
      ) in
      rw fits (Computes-from_exact_iter ctx cmp context _ s l)

  -- `insert` into a map with room writes the value at the key.
  pub Computes-insert :
      (self : MeteredOrdMap K V) (key : K) (value : V)
      → IsSorted cmp self.map
      → length self.map ≤ u32_max
      → length (Spec.insert cmp key value self.map) ≤ u32_max
      → Computes IsFree
          (MeteredMap.insert ctx self key value)
          (ok (record { map = Spec.insert cmp key value self.map }))
  unfolding MeteredMap.insert
  Computes-insert self key value s h l =
      let m = self.map in
      let e = put_at-position cmp key value m in
      Computes-step (charge_access ctx 1) _ tt _ (Computes-access ctx cmp context 1) (
        Computes-step (find ctx m key) _ (position cmp key m) _
          (Computes-find ctx cmp context m key s)
          (rw (← e) (
            insert_at-Computes m key value (position cmp key m)
              (position_bound ctx cmp context key m) h
              (rw e (insert-IsSorted cmp context.order key value m s)) (rw e l))))

  -- A full map refuses a new key.
  pub Computes-insert_full :
      (self : MeteredOrdMap K V) (key : K) (value : V)
      → IsSorted cmp self.map
      → length self.map ≡ u32_max
      → Spec.lookup cmp key self.map ≡ none
      → Computes IsFree (MeteredMap.insert ctx self key value) (err map_oob)
  unfolding MeteredMap.insert
  Computes-insert_full self key value s h absent =
      let m = self.map in
      Computes-step (charge_access ctx 1) _ tt _ (Computes-access ctx cmp context 1) (
        Computes-step (find ctx m key) _ (position cmp key m) _
          (Computes-find ctx cmp context m key s)
          (refused (position cmp key m) (position_bound ctx cmp context key m)
            (entry_at-position cmp context.order key m s ∙ absent)))
    where
      refused :
          (p : Position)
          → ((i : ℕ) → p ≡ found i → i < length self.map)
          → entry_at cmp self.map p ≡ none
          → Computes IsFree (insert_at ctx self.map key value p) (err map_oob)
      refused (found i) b e =
          let (x, g) = get_elem?-lt self.map i (b i refl) in absurd (ground arith)
      refused (missing i) b e =
          let full : (length self.map == u32_max) ≡ true = ground arith in
          unfold insert_at in rw full (Computes-lift (err map_oob))

  full_absent :
      (key : K) (value : V) (m : List (K × V))
      → IsSorted cmp m
      → length m ≤ u32_max
      → u32_max < length (Spec.insert cmp key value m)
      → (length m ≡ u32_max) × (Spec.lookup cmp key m ≡ none)
  full_absent key value m s h l =
      full_room (Spec.lookup cmp key m) (length-insert cmp context.order key value m s) h l
    where
      full_room :
          {n k : ℕ} (o : Option V)
          → k ≡ elim o [ none ↦ suc n | some _ ↦ n ]
          → n ≤ u32_max
          → u32_max < k
          → (n ≡ u32_max) × (o ≡ none)
      full_room none e h l = (omega arith, refl)
      full_room (some v) e h l = absurd (omega arith)

  -- On a sorted map of at most 2^32 - 1 entries, `insert` gives the map with the value at the key,
  -- also where the key is there already, unless that map would have more than 2^32 - 1 entries:
  -- then it gives the error of an index out of bounds. A budget may stop it first with its own
  -- error; a free budget does not.
  pub Computes-insert-bounded :
      (self : MeteredOrdMap K V) (key : K) (value : V)
      → IsSorted cmp self.map
      → length self.map ≤ u32_max
      → Computes IsFree
          (MeteredMap.insert ctx self key value)
          (bounded (Spec.insert cmp key value self.map))
  Computes-insert-bounded self key value s h =
      elim (le_or_lt (length (Spec.insert cmp key value self.map)) u32_max) [
        | inl l ↦ rw (leb-true l) (Computes-insert self key value s h l)
        | inr g ↦
            let (full, absent) = full_absent key value self.map s h g in
            rw (leb-false g) (Computes-insert_full self key value s full absent)
      ]

  abbrev removed_at : List (K × V) → Position → Option (MeteredOrdMap K V × V)
  removed_at m p = removal (erase_at cmp m p) (entry_at cmp m p)

  rest-eq-erase :
      (m : List (K × V)) (i : ℕ)
      → i < u64_max
      → (if ltb 0 i then take i m ++ drop (saturating_add u64_max i 1) m else drop 1 m)
        ≡ take i m ++ drop (suc i) m
  rest-eq-erase m zero h = refl
  rest-eq-erase m (suc i) h =
      let next : saturating_add u64_max (suc i) 1 ≡ suc (suc i) = ground arith in
      let pos : ltb 0 (suc i) ≡ true = ground arith in rw (pos, next)

  -- Where the key is absent nothing is erased, so the two readings agree.
  removed_at-position :
      (key : K) (m : List (K × V))
      → IsSorted cmp m
      → removed_at m (position cmp key m) ≡ removal (Spec.erase cmp key m) (Spec.lookup cmp key m)
  removed_at-position key m s =
      ap (removal (erase_at cmp m (position cmp key m)))
        (entry_at-position cmp context.order key m s)
      ∙ ap (λ rest. removal rest (Spec.lookup cmp key m)) (erase_at-position cmp key m)

  erase_at-IsSorted :
      (key : K) (m : List (K × V))
      → IsSorted cmp m
      → IsSorted cmp (erase_at cmp m (position cmp key m))
  erase_at-IsSorted key m s =
      rw (erase_at-position cmp key m) (erase-IsSorted cmp context.order key m s)

  remove_at-Computes :
      (m : List (K × V)) (p : Position)
      → ((i : ℕ) → p ≡ found i → i < length m)
      → length m ≤ u32_max
      → IsSorted cmp (erase_at cmp m p)
      → Computes IsFree (remove_at ctx m p) (ok (removed_at m p))
  unfolding remove_at
  remove_at-Computes m (missing i) b h s = Computes-pure none
  remove_at-Computes m (found i) b h s =
      let small = b i refl in
      let (e, g) = get_elem?-lt m i small in
      rw (rest-eq-erase m i (omega arith)) (
        rw (g, entry_at)
          (Computes-step (from_exact_iter ctx (take i m ++ drop (suc i) m)) _
            (record { map = take i m ++ drop (suc i) m }) _
            (Computes-from_exact_iter ctx cmp context (take i m ++ drop (suc i) m) s (
              omega (
                arith,
                length-append (take i m) (drop (suc i) m),
                length-take i m,
                length-drop (suc i) m,
              )))
            (Computes-step (lift (ok e)) _ e _ (Computes-lift (ok e)) (
              Computes-step (metered_clone ctx.value e.1) _ e.1 _
                (Computes-metered_clone ctx.value context.values e.1) (Computes-pure _)))))

  -- On a sorted map of at most 2^32 - 1 entries, `remove` gives nothing where the key is absent, and
  -- otherwise the map without the key and the value that was there. A budget may stop it first with
  -- its own error; a free budget does not.
  pub Computes-remove :
      (self : MeteredOrdMap K V) (key : K)
      → IsSorted cmp self.map
      → length self.map ≤ u32_max
      → Computes IsFree
          (MeteredMap.remove ctx self key)
          (ok (removal (Spec.erase cmp key self.map) (Spec.lookup cmp key self.map)))
  unfolding MeteredMap.remove
  Computes-remove self key s h =
      let m = self.map in
      let p = position cmp key m in
      Computes-step (find ctx m key) _ p _ (Computes-find ctx cmp context m key s) (
        subst (λ r. Computes IsFree (remove_at ctx m p) (ok r)) (removed_at-position key m s)
          (remove_at-Computes m p (position_bound ctx cmp context key m) h
            (erase_at-IsSorted key m s)))
