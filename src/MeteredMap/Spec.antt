-- ===== src/MeteredMap/Spec.antt =====
-- What the operations of the map compute: lookup, insertion and removal in a sorted list, entry by
-- entry, with no binary search and no charges.
use Prim.Native.Nat.Ordering.{lt, eq, gt}
use rs_stellar_contract_env.Prelude.{
  suc, ◌≡◌, refl, Option, none, some, List, [], ◌∷◌, ◌++◌, Ordering, arith, get_elem?, take, drop,
}
use rs_stellar_contract_env.MeteredMap.{Position, found, missing}
use rs_stellar_contract_env.MeteredMap.Order.{IsOrder, Above, IsSorted, position, shift}

module _ {K V : Type 0} (cmp : K → K → Ordering) where
  unfoldable pub lookup : K → List (K × V) → Option V
  lookup key [] = none
  lookup key ((k, v) ∷ m) = elim (cmp k key) [ eq ↦ some v | _ ↦ lookup key m ]

  unfoldable pub insert : K → V → List (K × V) → List (K × V)
  insert key value [] = (key, value) ∷ []
  insert key value ((k, v) ∷ m) = elim (cmp k key) [
    | lt ↦ (k, v) ∷ insert key value m
    | eq ↦ (key, value) ∷ m
    | gt ↦ (key, value) ∷ (k, v) ∷ m
  ]

  unfoldable pub erase : K → List (K × V) → List (K × V)
  erase key [] = []
  erase key ((k, v) ∷ m) = elim (cmp k key) [ lt ↦ (k, v) ∷ erase key m | eq ↦ m | gt ↦ (k, v) ∷ m ]

  -- Whether the key is there, at a position.
  abbrev pub entry_at : List (K × V) → Position → Option V
  entry_at m (found i) = elim (get_elem? m i) [ some e ↦ some e.1 | none ↦ none ]
  entry_at m (missing i) = none

  abbrev pub put_at : K → V → List (K × V) → Position → List (K × V)
  put_at key value m (found i) = take i m ++ ((key, value) ∷ drop (suc i) m)
  put_at key value m (missing i) = take i m ++ ((key, value) ∷ drop i m)

  abbrev pub erase_at : List (K × V) → Position → List (K × V)
  erase_at m (found i) = take i m ++ drop (suc i) m
  erase_at m (missing i) = m

  put_at-shift :
      (key : K) (value : V) (e : K × V) (m : List (K × V)) (p : Position)
      → put_at key value (e ∷ m) (shift p) ≡ e ∷ put_at key value m p
  put_at-shift key value e m (found i) = refl
  put_at-shift key value e m (missing i) = refl

  erase_at-shift :
      (e : K × V) (m : List (K × V)) (p : Position) → erase_at (e ∷ m) (shift p) ≡ e ∷ erase_at m p
  erase_at-shift e m (found i) = refl
  erase_at-shift e m (missing i) = refl

  entry_at-shift :
      (e : K × V) (m : List (K × V)) (p : Position) → entry_at (e ∷ m) (shift p) ≡ entry_at m p
  entry_at-shift e m (found i) = refl
  entry_at-shift e m (missing i) = refl

  pub put_at-position :
      (key : K) (value : V) (m : List (K × V))
      → put_at key value m (position cmp key m) ≡ insert key value m
  unfolding insert position
  put_at-position key value [] = refl
  put_at-position key value ((k, v) ∷ m) =
      ground
        (arith, put_at-shift key value (k, v) m (position cmp key m), put_at-position key value m)

  pub erase_at-position :
      (key : K) (m : List (K × V)) → erase_at m (position cmp key m) ≡ erase key m
  unfolding erase position
  erase_at-position key [] = refl
  erase_at-position key ((k, v) ∷ m) =
      ground (arith, erase_at-shift (k, v) m (position cmp key m), erase_at-position key m)

module _ {K V : Type 0} (cmp : K → K → Ordering) (order : IsOrder cmp) where
  pub lookup-Above : (key : K) (m : List (K × V)) → Above cmp key m → lookup cmp key m ≡ none
  unfolding lookup
  lookup-Above key [] h = refl
  lookup-Above key ((k, v) ∷ m) h = rw (order.flip_lt key k h.0, lookup) (lookup-Above key m h.1)

  pub Above-trans : (a b : K) (m : List (K × V)) → cmp a b ≡ lt → Above cmp b m → Above cmp a m
  Above-trans a b [] h k = tt
  Above-trans a b ((c, v) ∷ m) h k = (order.chain a b c h k.0, Above-trans a b m h k.1)

  pub entry_at-position :
      (key : K) (m : List (K × V))
      → IsSorted cmp m
      → entry_at cmp m (position cmp key m) ≡ lookup cmp key m
  unfolding lookup position
  entry_at-position key [] s = refl
  entry_at-position key ((k, v) ∷ m) s = ground (
    arith,
    entry_at-shift cmp (k, v) m (position cmp key m),
    entry_at-position key m s.1,
    order.flip_gt k key,
    λ (h : cmp key k ≡ lt). lookup-Above key m (Above-trans key k m h s.0),
  )

  Above-insert :
      (a key : K) (value : V) (m : List (K × V))
      → cmp a key ≡ lt
      → Above cmp a m
      → Above cmp a (insert cmp key value m)
  unfolding insert
  Above-insert a key value [] h k = (h, tt)
  Above-insert a key value ((l, w) ∷ m) h k = ground (arith, Above-insert a key value m h k.1)

  pub Above-eq : (a b : K) (m : List (K × V)) → cmp a b ≡ eq → Above cmp a m → Above cmp b m
  Above-eq a b [] h k = tt
  Above-eq a b ((c, v) ∷ m) h k =
      (let e = order.left_eq a b c h in let f = k.0 in cc, Above-eq a b m h k.1)

  -- Insertion keeps a map sorted.
  pub insert-IsSorted :
      (key : K) (value : V) (m : List (K × V))
      → IsSorted cmp m
      → IsSorted cmp (insert cmp key value m)
  unfolding insert
  insert-IsSorted key value [] s = (tt, tt)
  insert-IsSorted key value ((k, v) ∷ m) s = ground (
    arith,
    insert-IsSorted key value m s.1,
    λ (h : cmp k key ≡ lt). Above-insert k key value m h s.0,
    λ (h : cmp k key ≡ eq). Above-eq k key m h s.0,
    order.flip_gt k key,
    λ (h : cmp key k ≡ lt). Above-trans key k m h s.0,
  )
