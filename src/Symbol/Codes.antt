-- ===== src/Symbol/Codes.antt =====
-- Numbers in base 64, and the codes of characters.
use rs_stellar_contract_env.Prelude.{
  ℕ, zero, suc, ◌+◌, ◌-◌, ◌*◌, ◌≤◌, ◌<◌, ◌≡◌, refl, ap, ◌⊎◌, inl, inr, List, [], ◌∷◌, ◌++◌, length,
  arith,
}
use native.Mathlib.Nat.{add-mul, mul_assoc, mul-le-mul_right}
use rs_stellar_contract_env.Symbol.{valid, encode_char, decode_code}

-- The characters of symbols.
abbrev pub IsSymbolChar : ℕ → Type 0
IsSymbolChar ch =
    (ch ≡ 95) ⊎ ((48 ≤ ch) × (ch ≤ 57)) ⊎ ((65 ≤ ch) × (ch ≤ 90)) ⊎ ((97 ≤ ch) × (ch ≤ 122))

-- A character's code, from which it is decoded.
pub record HasCode (ch v : ℕ) : Type 0 where
  pub encodes : encode_char ch ≡ valid v
  pub decodes : decode_code v ≡ ch
  pub positive : 0 < v
  pub small : v < 64
  pub nonzero : 0 < ch

pub char-HasCode : (ch : ℕ) → IsSymbolChar ch → (v : ℕ) × HasCode ch v
unfolding encode_char decode_code
char-HasCode ch (inl h) = (
  1,
  record {
    encodes = ground arith;
    decodes = ground arith;
    positive = omega arith;
    small = omega arith;
    nonzero = omega arith;
  },
)
char-HasCode ch (inr (inl h)) = (
  2 + (ch - 48),
  record {
    encodes = ground arith;
    decodes = ground arith;
    positive = omega arith;
    small = omega arith;
    nonzero = omega arith;
  },
)
char-HasCode ch (inr (inr (inl h))) = (
  12 + (ch - 65),
  record {
    encodes = ground arith;
    decodes = ground arith;
    positive = omega arith;
    small = omega arith;
    nonzero = omega arith;
  },
)
char-HasCode ch (inr (inr (inr h))) = (
  38 + (ch - 97),
  record {
    encodes = ground arith;
    decodes = ground arith;
    positive = omega arith;
    small = omega arith;
    nonzero = omega arith;
  },
)

-- The powers of 64.
abbrev pub weight : ℕ → ℕ
weight zero = 1
weight (suc n) = 64 * weight n

-- Digits in base 64, the first the highest, after a number.
abbrev pub horner : ℕ → List ℕ → ℕ
horner a [] = a
horner a (c ∷ cs) = horner (a * 64 + c) cs

abbrev pub AreDigits : List ℕ → Type 0
AreDigits [] = Unit
AreDigits (c ∷ cs) = (c < 64) × AreDigits cs

abbrev pub zeros : ℕ → List ℕ
zeros zero = []
zeros (suc n) = 0 ∷ zeros n

pub horner_first : (c : ℕ) (cs : List ℕ) → horner 0 (c ∷ cs) ≡ horner c cs
horner_first c cs = ap (λ n. horner n cs) {x = 0 * 64 + c} {y = c} (omega arith)

pub horner_split : (a : ℕ) (cs : List ℕ) → horner a cs ≡ a * weight (length cs) + horner 0 cs
horner_split a [] = omega arith
horner_split a (c ∷ cs) =
    let w = weight (length cs) in
    let one = horner_split (a * 64 + c) cs in
    let two = horner_split c cs in
    let spread = add-mul (a * 64) c w in
    let turn = mul_assoc a 64 w in
    let opens : horner a (c ∷ cs) ≡ horner (a * 64 + c) cs = refl in
    omega (arith, one, two, spread, turn, opens, horner_first c cs)

pub horner_bound : (cs : List ℕ) → AreDigits cs → horner 0 cs < weight (length cs)
horner_bound [] h = omega arith
horner_bound (c ∷ cs) h =
    let split = horner_split c cs in
    let rest = horner_bound cs h.1 in
    let most = mul-le-mul_right {m = c} {n = 63} (weight (length cs)) (omega (arith, h.0)) in
    omega (arith, split, rest, most, horner_first c cs)

pub horner-snoc : (a : ℕ) (cs : List ℕ) → horner a (cs ++ (0 ∷ [])) ≡ horner a cs * 64
horner-snoc a [] = omega arith
horner-snoc a (c ∷ cs) = horner-snoc (a * 64 + c) cs

pub zeros_snoc : (n : ℕ) → zeros n ++ (0 ∷ []) ≡ zeros (suc n)
zeros_snoc zero = refl
zeros_snoc (suc n) = ap (λ l. 0 ∷ l) (zeros_snoc n)

pub horner-zeros : (n : ℕ) → horner 0 (zeros n) ≡ 0
horner-zeros zero = refl
horner-zeros (suc n) = horner-zeros n
