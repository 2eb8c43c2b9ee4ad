-- ===== src/Symbol/RoundTrip.antt =====
-- What a symbol is encoded from is what is decoded from it.
use rs_stellar_contract_env.Prelude.{
  ℕ, zero, suc, ◌+◌, ◌*◌, ◌/◌, ◌%◌, ◌^◌, ◌≤◌, ◌<◌, ◌≡◌, refl, sym, ◌∙◌, ap, false, Bool-cases, inl,
  inr, none, some, List, [], ◌∷◌, ◌++◌, length, ◌==◌, leb, arith,
}
use rs_stellar_contract_env.Symbol.{valid, encode_from, decode_code, next_from}
use rs_stellar_contract_env.Symbol.Codes.{
  horner_first, IsSymbolChar, HasCode, char-HasCode, weight, horner, AreDigits, horner_split,
  horner_bound, horner-snoc,
}

-- The codes of characters.
abbrev pub AreCodes : List ℕ → List ℕ → Type 0
AreCodes [] [] = Unit
AreCodes (ch ∷ b) (v ∷ vs) = HasCode ch v × AreCodes b vs
AreCodes [] (v ∷ vs) = ⊥
AreCodes (ch ∷ b) [] = ⊥

abbrev pub AreSymbolChars : List ℕ → Type 0
AreSymbolChars [] = Unit
AreSymbolChars (ch ∷ b) = IsSymbolChar ch × AreSymbolChars b

pub codes_of : (b : List ℕ) → AreSymbolChars b → (vs : List ℕ) × AreCodes b vs
codes_of [] h = ([], tt)
codes_of (ch ∷ b) h =
    let (v, c) = char-HasCode ch h.0 in let (vs, cs) = codes_of b h.1 in (v ∷ vs, (c, cs))

pub length-AreCodes : (b vs : List ℕ) → AreCodes b vs → length vs ≡ length b
length-AreCodes [] [] h = refl
length-AreCodes (ch ∷ b) (v ∷ vs) h = omega (arith, length-AreCodes b vs h.1)
length-AreCodes [] (v ∷ vs) h = absurd h
length-AreCodes (ch ∷ b) [] h = absurd h

pub weight_mono : (m n : ℕ) → m ≤ n → weight m ≤ weight n
weight_mono zero zero h = omega arith
weight_mono zero (suc n) h = omega (arith, weight_mono zero n (omega arith))
weight_mono (suc m) zero h = absurd (omega arith)
weight_mono (suc m) (suc n) h = omega (arith, weight_mono m n (omega arith))

-- Within nine characters the loop computes the digits and nothing is shifted out.
pub encode_from_lem :
    (len n accum : ℕ) (b vs : List ℕ)
    → AreCodes b vs
    → n + length b ≤ 9
    → accum < weight n
    → encode_from len n accum b ≡ valid (horner accum vs)
unfolding encode_from
encode_from_lem len n accum [] [] h l k = refl
encode_from_lem len n accum [] (v ∷ vs) h l k = absurd h
encode_from_lem len n accum (ch ∷ b) [] h l k = absurd h
encode_from_lem len n accum (ch ∷ b) (v ∷ vs) h l k =
    let room : leb 9 n ≡ false = ground arith in
    let most : weight n ≤ weight 8 = weight_mono n 8 (omega arith) in
    let small = h.0.small in
    let fits : accum * 64 % 2 ^ 64 ≡ accum * 64 = omega arith in
    let below : accum * 64 + v < weight (suc n) = omega arith in
    let up : weight (n + 1) ≡ weight (suc n) = ap weight {x = n + 1} {y = suc n} (omega arith) in
    rw (room, h.0.encodes, fits)
      (encode_from_lem len (n + 1) (accum * 64 + v) b vs h.1 (omega arith)
        (omega (arith, up, below)))

-- What the shift does to the low 54 bits, of which `d` is the highest digit.
step_top : (s d r : ℕ) → d < 64 → r < 2 ^ 48 → s % 2 ^ 54 ≡ d * 2 ^ 48 + r → s / 2 ^ 48 % 64 ≡ d
step_top s d r h k e = omega arith

step_rest :
    (s d r : ℕ)
    → d < 64
    → r < 2 ^ 48
    → s % 2 ^ 54 ≡ d * 2 ^ 48 + r
    → s * 64 % 2 ^ 64 % 2 ^ 54 ≡ r * 64
step_rest s d r h k e = omega arith

-- The iterator's number has the digits of a list in its low 54 bits.
abbrev pub Holds : ℕ → List ℕ → Type 0
Holds s ds = s % 2 ^ 54 ≡ horner 0 ds

-- A number whose first digit is `d`, and what the shift leaves.
module _ (s d : ℕ) (ds : List ℕ) (digits : AreDigits (d ∷ ds)) (nine : length ds ≡ 8)
    (holds : Holds s (d ∷ ds)) where
  digit_weight : weight (length ds) ≡ 2 ^ 48
  digit_weight = ap weight nine

  digit_rest : horner 0 ds < 2 ^ 48
  digit_rest = omega (arith, horner_bound ds digits.1, digit_weight)

  digit_split : s % 2 ^ 54 ≡ d * 2 ^ 48 + horner 0 ds
  digit_split =
      let w = digit_weight in
      let at : d * weight (length ds) ≡ d * 2 ^ 48 = ap (λ n. d * n) w in
      omega (arith, holds, horner_first d ds, horner_split d ds, at)

  pub digit_top : s / 2 ^ 48 % 64 ≡ d
  digit_top = step_top s d (horner 0 ds) digits.0 digit_rest digit_split

  pub digit_shift : Holds (s * 64 % 2 ^ 64) (ds ++ (0 ∷ []))
  digit_shift = step_rest s d (horner 0 ds) digits.0 digit_rest digit_split ∙ sym (horner-snoc 0 ds)

pub decode_zero : decode_code 0 ≡ 0
unfolding decode_code
decode_zero = refl

-- An empty number yields nothing.
pub next_none : (fuel s : ℕ) → s % 2 ^ 54 ≡ 0 → (next_from fuel s).0 ≡ none
unfolding next_from
next_none zero s h = refl
next_none (suc fuel) s h =
    let top : s / 2 ^ 48 % 64 ≡ 0 = omega arith in
    let rest = next_none fuel (s * 64 % 2 ^ 64) (omega arith) in
    elim (Bool-cases (s == 0)) [ inl e ↦ rw e | inr e ↦ rw (e, top, decode_zero) rest ]

-- A code that is not 0 is yielded at once.
pub next_code :
    (fuel s ch v : ℕ) (ds : List ℕ)
    → HasCode ch v
    → AreDigits (v ∷ ds)
    → length ds ≡ 8
    → Holds s (v ∷ ds)
    → next_from (suc fuel) s ≡ (some ch, s * 64 % 2 ^ 64)
unfolding next_from
next_code fuel s ch v ds c digits nine holds =
    let top = digit_top s v ds digits nine holds in
    let split = digit_split s v ds digits nine holds in
    let positive = c.positive in
    let there : (s == 0) ≡ false = ground arith in
    let code : decode_code (s / 2 ^ 48 % 64) ≡ ch = rw (top, c.decodes) in
    let kept : (ch == 0) ≡ false = ground (arith, c.nonzero) in rw (there, code, kept)
