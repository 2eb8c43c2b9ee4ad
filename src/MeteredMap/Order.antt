-- ===== src/MeteredMap/Order.antt =====
-- The order of the keys, the entries below and above a key, and where a key stands or belongs.
use Prim.Native.Nat.Ordering.{lt, eq, gt}
use rs_stellar_contract_env.Prelude.{
  ℕ, zero, suc, ◌+◌, ◌≤◌, ◌<◌, ◌≡◌, refl, ap, ◌⊎◌, inl, inr, some, List, [], ◌∷◌, Ordering, arith,
  length, get_elem?,
}
use rs_stellar_contract_env.MeteredMap.{Position, found, missing}

-- A total preorder, decided in three ways. Keys that compare as equal need not be the same key:
-- two objects of a host may have equal contents.
pub record IsOrder {K : Type 0} (cmp : K → K → Ordering) : Type 0 where
  pub same : (a : K) → cmp a a ≡ eq
  pub flip_lt : (a b : K) → cmp a b ≡ lt → cmp b a ≡ gt
  pub flip_gt : (a b : K) → cmp a b ≡ gt → cmp b a ≡ lt
  pub chain : (a b c : K) → cmp a b ≡ lt → cmp b c ≡ lt → cmp a c ≡ lt
  pub left_eq : (a b c : K) → cmp a b ≡ eq → cmp a c ≡ cmp b c

pub lt_or_eq : (i j : ℕ) → i ≤ j → (i < j) ⊎ (i ≡ j)
lt_or_eq i j h = omega arith

pub Ordering-cases : (o : Ordering) → (o ≡ lt) ⊎ (o ≡ eq) ⊎ (o ≡ gt)
Ordering-cases lt = inl refl
Ordering-cases eq = inr (inl refl)
Ordering-cases gt = inr (inr refl)

module _ {K : Type 0} (cmp : K → K → Ordering) (order : IsOrder cmp) where
  pub flip_eq : (a b : K) → cmp a b ≡ eq → cmp b a ≡ eq
  flip_eq a b e = cc (order.left_eq a b a e, order.same a)

  pub right_eq : (a b c : K) → cmp a b ≡ eq → cmp c a ≡ cmp c b
  right_eq a b c e = ground (
    arith,
    order.left_eq a b c e,
    order.left_eq c a b,
    order.left_eq c b a,
    order.flip_lt c a,
    order.flip_lt c b,
    order.flip_gt c a,
    order.flip_gt c b,
    flip_eq a b e,
    flip_eq c a,
    flip_eq c b,
    order.flip_lt a c,
    order.flip_lt b c,
    order.flip_gt a c,
    order.flip_gt b c,
  )

abbrev pub shift : Position → Position
shift (found i) = found (suc i)
shift (missing i) = missing (suc i)

module _ {K V : Type 0} (cmp : K → K → Ordering) where
  -- Every entry has a key above `k`.
  abbrev pub Above : K → List (K × V) → Type 0
  Above k [] = Unit
  Above k ((l, v) ∷ m) = (cmp k l ≡ lt) × Above k m

  -- Each key is below all that follow it, so no two keys compare as equal.
  abbrev pub IsSorted : List (K × V) → Type 0
  IsSorted [] = Unit
  IsSorted ((k, v) ∷ m) = Above k m × IsSorted m

  -- The position of a key, entry by entry.
  unfoldable pub position : K → List (K × V) → Position
  position key [] = missing 0
  position key ((k, v) ∷ m) = elim (cmp k key) [
    | lt ↦ shift (position key m)
    | eq ↦ found 0
    | gt ↦ missing 0
  ]

  -- The entries before `n` are below the key.
  abbrev pub Lower : K → ℕ → List (K × V) → Type 0
  Lower key n m = (i : ℕ) (e : K × V) → i < n → get_elem? m i ≡ some e → cmp e.0 key ≡ lt

  -- The entries from `n` on are above the key.
  abbrev pub Upper : K → ℕ → List (K × V) → Type 0
  Upper key n m = (i : ℕ) (e : K × V) → n ≤ i → get_elem? m i ≡ some e → cmp e.0 key ≡ gt

  pub position_missing :
      (key : K) (n : ℕ) (m : List (K × V))
      → n ≤ length m
      → Lower key n m
      → Upper key n m
      → position key m ≡ missing n
  unfolding position
  position_missing key zero [] h lo up = refl
  position_missing key (suc n) [] h lo up = absurd (omega arith)
  position_missing key zero ((k, v) ∷ m) h lo up = rw (up 0 (k, v) (omega arith) refl, position)
  position_missing key (suc n) ((k, v) ∷ m) h lo up =
      rw (lo 0 (k, v) (omega arith) refl, position)
        (ap shift (
          position_missing key n m (omega arith) (λ i e p q. lo (suc i) e (omega arith) q)
            (λ i e p q. up (suc i) e (omega arith) q)))

  pub position_found :
      (key : K) (i : ℕ) (m : List (K × V)) (e : K × V)
      → get_elem? m i ≡ some e
      → cmp e.0 key ≡ eq
      → Lower key i m
      → position key m ≡ found i
  unfolding position
  position_found key i [] e g h lo = absurd (cc g)
  position_found key zero ((k, v) ∷ m) e g h lo = ground arith
  position_found key (suc i) ((k, v) ∷ m) e g h lo =
      rw (lo 0 (k, v) (omega arith) refl, position)
        (ap shift (position_found key i m e g h (λ j f p q. lo (suc j) f (omega arith) q)))

module _ {K V : Type 0} (cmp : K → K → Ordering) (order : IsOrder cmp) where
  Above-index :
      (k : K) (m : List (K × V)) (j : ℕ) (b : K × V)
      → Above cmp k m
      → get_elem? m j ≡ some b
      → cmp k b.0 ≡ lt
  Above-index k [] j b h g = absurd (cc g)
  Above-index k (e ∷ m) zero b h g = ground arith
  Above-index k (e ∷ m) (suc j) b h g = Above-index k m j b h.1 g

  -- In a sorted map an earlier entry has the lower key.
  pub sorted_index :
      (m : List (K × V)) (i j : ℕ) (a b : K × V)
      → IsSorted cmp m
      → i < j
      → get_elem? m i ≡ some a
      → get_elem? m j ≡ some b
      → cmp a.0 b.0 ≡ lt
  sorted_index [] i j a b s h g k = absurd (cc g)
  sorted_index (e ∷ m) zero zero a b s h g k = absurd (omega arith)
  sorted_index (e ∷ m) zero (suc j) a b s h g k =
      let l = Above-index e.0 m j b s.0 k in ground arith
  sorted_index (e ∷ m) (suc i) zero a b s h g k = absurd (omega arith)
  sorted_index (e ∷ m) (suc i) (suc j) a b s h g k = sorted_index m i j a b s.1 (omega arith) g k

  -- An entry below the key leaves only entries below it before, and one above it only such after.
  pub Lower-of_lt :
      (m : List (K × V)) (key : K) (mid : ℕ) (p : K × V)
      → IsSorted cmp m
      → get_elem? m mid ≡ some p
      → cmp p.0 key ≡ lt
      → Lower cmp key (mid + 1) m
  Lower-of_lt m key mid p s g h i e le k = elim (lt_or_eq i mid (omega arith)) [
    | inl less ↦ order.chain e.0 p.0 key (sorted_index m i mid e p s less k g) h
    | inr same ↦ cc
  ]

  pub Upper-of_gt :
      (m : List (K × V)) (key : K) (mid : ℕ) (p : K × V)
      → IsSorted cmp m
      → get_elem? m mid ≡ some p
      → cmp p.0 key ≡ gt
      → Upper cmp key mid m
  Upper-of_gt m key mid p s g h i e le k = elim (lt_or_eq mid i le) [
    | inl less ↦
        order.flip_lt key e.0
          (order.chain key p.0 e.0 (order.flip_gt p.0 key h) (sorted_index m mid i p e s less g k))
    | inr same ↦ cc
  ]

  pub Lower-of_eq :
      (m : List (K × V)) (key : K) (mid : ℕ) (p : K × V)
      → IsSorted cmp m
      → get_elem? m mid ≡ some p
      → cmp p.0 key ≡ eq
      → Lower cmp key mid m
  Lower-of_eq m key mid p s g h i e le k =
      let less = sorted_index m i mid e p s le k g in
      let same = right_eq cmp order p.0 key e.0 h in cc
