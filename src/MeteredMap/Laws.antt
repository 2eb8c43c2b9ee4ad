-- ===== src/MeteredMap/Laws.antt =====
-- The laws of lookup, insertion and removal, on which the clients of the map rely.
use Prim.Native.Nat.Ordering.{lt, eq}
use rs_stellar_contract_env.Prelude.{
  suc, ◌≡◌, refl, Option, none, some, List, [], ◌∷◌, Ordering, arith, length,
}
use rs_stellar_contract_env.MeteredMap.Order.{IsOrder, Above, IsSorted, right_eq}
use rs_stellar_contract_env.MeteredMap.Spec.{
  lookup, insert, erase, lookup-Above, Above-trans, Above-eq,
}

module _ {K V : Type 0} (cmp : K → K → Ordering) where
  -- The entry that a lookup of `j` finds once `key` has been written.
  abbrev pub written : K → K → Option V → Option V → Option V
  written key j new old = elim (cmp key j) [ eq ↦ new | _ ↦ old ]

module _ {K V : Type 0} (cmp : K → K → Ordering) (order : IsOrder cmp) where
  -- After an insertion a lookup finds the value at the key, and at any other key what it found
  -- before.
  pub lookup-insert :
      (key j : K) (value : V) (m : List (K × V))
      → lookup cmp j (insert cmp key value m)
        ≡ written {V = V} cmp key j (some value) (lookup cmp j m)
  unfolding lookup insert
  lookup-insert key j value [] = refl
  lookup-insert key j value ((k, v) ∷ m) = ground (
    arith,
    lookup-insert key j value m,
    order.left_eq k key j,
    order.left_eq key j k,
    right_eq cmp order key j k,
  )

  Above-erase : (a key : K) (m : List (K × V)) → Above cmp a m → Above cmp a (erase cmp key m)
  unfolding erase
  Above-erase a key [] h = tt
  Above-erase a key ((k, v) ∷ m) h = ground (arith, Above-erase a key m h.1)

  -- Removal keeps a map sorted.
  pub erase-IsSorted :
      (key : K) (m : List (K × V)) → IsSorted cmp m → IsSorted cmp (erase cmp key m)
  unfolding erase
  erase-IsSorted key [] s = tt
  erase-IsSorted key ((k, v) ∷ m) s =
      ground (arith, erase-IsSorted key m s.1, Above-erase k key m s.0)

  lookup_below : (j k : K) (m : List (K × V)) → Above cmp k m → cmp j k ≡ lt → lookup cmp j m ≡ none
  lookup_below j k m h e = lookup-Above cmp order j m (Above-trans cmp order j k m e h)

  lookup_same : (j k : K) (m : List (K × V)) → Above cmp k m → cmp k j ≡ eq → lookup cmp j m ≡ none
  lookup_same j k m h e = lookup-Above cmp order j m (Above-eq cmp order k j m e h)

  -- After a removal from a sorted map a lookup finds nothing at the key, and at any other key what
  -- it found before.
  pub lookup-erase :
      (key j : K) (m : List (K × V))
      → IsSorted cmp m
      → lookup cmp j (erase cmp key m) ≡ written {V = V} cmp key j none (lookup cmp j m)
  unfolding lookup erase
  lookup-erase key j [] s = ground arith
  lookup-erase key j ((k, v) ∷ m) s = ground (
    arith,
    lookup-erase key j m s.1,
    right_eq cmp order key j k,
    order.left_eq k key j,
    order.left_eq key j k,
    order.flip_gt k key,
    order.flip_lt j k,
    lookup_same j k m s.0,
    lookup_below j k m s.0,
  )

  -- An insertion adds an entry exactly where the key was not there.
  pub length-insert :
      (key : K) (value : V) (m : List (K × V))
      → IsSorted cmp m
      → length (insert cmp key value m)
        ≡ elim (lookup cmp key m) [ none ↦ suc (length m) | some _ ↦ length m ]
  unfolding lookup insert
  length-insert key value [] s = refl
  length-insert key value ((k, v) ∷ m) s =
      ground (arith, length-insert key value m s.1, lookup_below key k m s.0, order.flip_gt k key)
