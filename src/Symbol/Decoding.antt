-- ===== src/Symbol/Decoding.antt =====
-- The characters that the iterator yields for a body.
use rs_stellar_contract_env.Prelude.{
  ℕ, zero, suc, ◌+◌, ◌-◌, ◌*◌, ◌/◌, ◌%◌, ◌^◌, ◌≤◌, ◌<◌, ◌≡◌, refl, sym, ◌∙◌, ap, true, false, none,
  some, List, [], ◌∷◌, ◌++◌, append_assoc, length, length-append, ◌==◌, arith,
}
use rs_stellar_contract_env.Symbol.{
  valid, try_from_bytes, try_from_body, decode_code, next_from, next, chars, to_string,
}
use rs_stellar_contract_env.Symbol.Codes.{
  HasCode, weight, horner, AreDigits, zeros, horner_first, horner_bound, zeros_snoc, horner-zeros,
}
use rs_stellar_contract_env.Symbol.RoundTrip.{
  AreCodes, AreSymbolChars, codes_of, length-AreCodes, weight_mono, encode_from_lem, Holds,
  digit_top, digit_shift, decode_zero, next_none, next_code,
}

horner_above : (a : ℕ) (cs : List ℕ) → a ≤ horner a cs
horner_above a [] = omega arith
horner_above a (c ∷ cs) = omega (arith, horner_above (a * 64 + c) cs)

horner-zeros-append : (z : ℕ) (ds : List ℕ) → horner 0 (zeros z ++ ds) ≡ horner 0 ds
horner-zeros-append zero ds = refl
horner-zeros-append (suc z) ds = horner_first 0 (zeros z ++ ds) ∙ horner-zeros-append z ds

AreDigits-append : (ds es : List ℕ) → AreDigits ds → AreDigits es → AreDigits (ds ++ es)
AreDigits-append [] es h k = k
AreDigits-append (d ∷ ds) es h k = (h.0, AreDigits-append ds es h.1 k)

AreDigits-zeros : (z : ℕ) → AreDigits (zeros z)
AreDigits-zeros zero = tt
AreDigits-zeros (suc z) = (omega arith, AreDigits-zeros z)

length-zeros : (z : ℕ) → length (zeros z) ≡ z
length-zeros zero = refl
length-zeros (suc z) = omega (arith, length-zeros z)

AreCodes-AreDigits : (b vs : List ℕ) → AreCodes b vs → AreDigits vs
AreCodes-AreDigits [] [] h = tt
AreCodes-AreDigits (ch ∷ b) (v ∷ vs) h = (h.0.small, AreCodes-AreDigits b vs h.1)
AreCodes-AreDigits [] (v ∷ vs) h = absurd h
AreCodes-AreDigits (ch ∷ b) [] h = absurd h

-- A number that holds a positive digit is not 0.
Holds-nonzero : (s z v : ℕ) (ds : List ℕ) → 0 < v → Holds s (zeros z ++ (v ∷ ds)) → (s == 0) ≡ false
Holds-nonzero s z v ds positive holds =
    let above : v ≤ horner 0 (v ∷ ds) = omega (arith, horner_above v ds, horner_first v ds) in
    let same : horner 0 (zeros z ++ (v ∷ ds)) ≡ horner 0 (v ∷ ds) =
      horner-zeros-append z (v ∷ ds) in
    let low : v ≤ s % 2 ^ 54 = omega (arith, above, same, holds) in ground (arith, low, positive)

next_past :
    (fuel s : ℕ)
    → (s == 0) ≡ false
    → (decode_code (s / 2 ^ 48 % 64) == 0) ≡ true
    → next_from (suc fuel) s ≡ next_from fuel (s * 64 % 2 ^ 64)
unfolding next_from
next_past fuel s there code = rw (there, code)

-- The digits of 0 before the first code are passed over.
next_skip :
    (z fuel s ch v : ℕ) (ds : List ℕ)
    → HasCode ch v
    → AreDigits (v ∷ ds)
    → length (zeros z ++ (v ∷ ds)) ≡ 9
    → Holds s (zeros z ++ (v ∷ ds))
    → (s' : ℕ) × (next_from (suc (z + fuel)) s ≡ (some ch, s')) × Holds s' (ds ++ zeros (suc z))
next_skip zero fuel s ch v ds c digits nine holds = (
  s * 64 % 2 ^ 64,
  next_code (zero + fuel) s ch v ds c digits (omega (arith, nine)) holds,
  digit_shift s v ds digits (omega (arith, nine)) holds,
)
next_skip (suc z) fuel s ch v ds c digits nine holds =
    let all : AreDigits (0 ∷ (zeros z ++ (v ∷ ds))) =
      (omega arith, AreDigits-append (zeros z) (v ∷ ds) (AreDigits-zeros z) digits) in
    let eight : length (zeros z ++ (v ∷ ds)) ≡ 8 = omega (arith, nine) in
    let top = digit_top s 0 (zeros z ++ (v ∷ ds)) all eight holds in
    let shifted : Holds (s * 64 % 2 ^ 64) (zeros z ++ (v ∷ (ds ++ (0 ∷ [])))) =
      digit_shift s 0 (zeros z ++ (v ∷ ds)) all eight holds
      ∙ ap (horner 0) (append_assoc (zeros z) (v ∷ ds) (0 ∷ [])) in
    let more : length (zeros z ++ (v ∷ (ds ++ (0 ∷ [])))) ≡ 9 =
      let opened : length (zeros z ++ (v ∷ ds)) ≡ length (zeros z) + suc (length ds) =
        length-append (zeros z) (v ∷ ds) in
      let closed : length (zeros z ++ (v ∷ (ds ++ (0 ∷ []))))
          ≡ length (zeros z) + suc (length (ds ++ (0 ∷ []))) =
        length-append (zeros z) (v ∷ (ds ++ (0 ∷ []))) in
      let one : length (ds ++ (0 ∷ [])) ≡ length ds + 1 = length-append ds (0 ∷ []) in
      omega (arith, opened, closed, one, eight) in
    let (s', e, h) =
      next_skip z fuel (s * 64 % 2 ^ 64) ch v (ds ++ (0 ∷ [])) c
        (digits.0, AreDigits-append ds (0 ∷ []) digits.1 (omega arith, tt)) more shifted in
    let there = Holds-nonzero s (suc z) v ds c.positive holds in
    let code : (decode_code (s / 2 ^ 48 % 64) == 0) ≡ true = rw (top, decode_zero) in
    let one : suc z + fuel ≡ suc (z + fuel) = omega arith in
    (
      s',
      ap (λ n. next_from (suc n) s) one ∙ next_past (suc (z + fuel)) s there code ∙ e,
      h ∙ ap (horner 0) (append_assoc ds (0 ∷ []) (zeros (suc z))),
    )

next_is : (s : ℕ) → next s ≡ next_from 11 s
unfolding next
next_is s = refl

-- An iterator that yields nothing ends the characters.
chars_end : (fuel s : ℕ) → s % 2 ^ 54 ≡ 0 → chars fuel s ≡ []
unfolding chars
chars_end zero s h = refl
chars_end (suc fuel) s h =
    let empty : (next s).0 ≡ none = ap (λ r. r.0) (next_is s) ∙ next_none 11 s h in
    rw (empty, chars)

-- A character that the iterator yields is in front of the others.
chars_step : (fuel s ch s' : ℕ) → next s ≡ (some ch, s') → chars (suc fuel) s ≡ ch ∷ chars fuel s'
unfolding chars
chars_step fuel s ch s' h =
    let yielded : (next s).0 ≡ some ch = ap (λ r. r.0) h in
    let left : (next s).1 ≡ s' = ap (λ r. r.1) h in rw (yielded, left, chars)

-- Once the digits are aligned, the characters come one after the other.
chars_lem :
    (fuel m s : ℕ) (b vs : List ℕ)
    → AreCodes b vs
    → length vs + m ≡ 9
    → length b < fuel
    → Holds s (vs ++ zeros m)
    → chars fuel s ≡ b
chars_lem zero m s b vs h nine f holds = absurd (omega arith)
chars_lem (suc fuel) m s [] [] h nine f holds = chars_end (suc fuel) s (holds ∙ horner-zeros m)
chars_lem (suc fuel) m s [] (v ∷ vs) h nine f holds = absurd h
chars_lem (suc fuel) m s (ch ∷ b) [] h nine f holds = absurd h
chars_lem (suc fuel) m s (ch ∷ b) (v ∷ vs) h nine f holds =
    let digits : AreDigits (v ∷ (vs ++ zeros m)) = (
      h.0.small,
      AreDigits-append vs (zeros m) (AreCodes-AreDigits b vs h.1) (AreDigits-zeros m),
    ) in
    let eight : length (vs ++ zeros m) ≡ 8 =
      omega (arith, length-append vs (zeros m), length-zeros m) in
    let step = next_code 10 s ch v (vs ++ zeros m) h.0 digits eight holds in
    let shifted : Holds (s * 64 % 2 ^ 64) (vs ++ zeros (suc m)) =
      digit_shift s v (vs ++ zeros m) digits eight holds
      ∙ ap (horner 0) (append_assoc vs (zeros m) (0 ∷ []) ∙ ap (λ l. vs ++ l) (zeros_snoc m)) in
    chars_step fuel s ch (s * 64 % 2 ^ 64) (next_is s ∙ step)
    ∙ ap (λ l. ch ∷ l)
        (chars_lem fuel (suc m) (s * 64 % 2 ^ 64) b vs h.1 (omega arith) (omega arith) shifted)

-- The characters that a body of the codes holds.
to_string_lem :
    (z body : ℕ) (b vs : List ℕ)
    → AreCodes b vs
    → z + length vs ≡ 9
    → Holds body (zeros z ++ vs)
    → to_string body ≡ b
unfolding to_string
to_string_lem z body [] [] h nine holds = chars_end 10 body (holds ∙ horner-zeros-append z [])
to_string_lem z body [] (v ∷ vs) h nine holds = absurd h
to_string_lem z body (ch ∷ b) [] h nine holds = absurd h
to_string_lem z body (ch ∷ b) (v ∷ vs) h nine holds =
    let digits : AreDigits (v ∷ vs) = (h.0.small, AreCodes-AreDigits b vs h.1) in
    let all : length (zeros z ++ (v ∷ vs)) ≡ 9 =
      omega (arith, length-append (zeros z) (v ∷ vs), length-zeros z) in
    let same = length-AreCodes b vs h.1 in
    let fits : z + (10 - z) ≡ 10 = omega arith in
    let (s', e, held) = next_skip z (10 - z) body ch v vs h.0 digits all holds in
    let e' : next body ≡ (some ch, s') =
      next_is body ∙ ap (λ n. next_from (suc n) body) (sym fits) ∙ e in
    chars_step 9 body ch s' e'
    ∙ ap (λ l. ch ∷ l) (chars_lem 9 (suc z) s' b vs h.1 (omega arith) (omega (arith, same)) held)

-- A string of at most nine characters of symbols has a body, one that `try_from_body` takes, and the
-- characters of that body are the string.
pub to_string-try_from_bytes :
    (b : List ℕ)
    → AreSymbolChars b
    → length b ≤ 9
    → (body : ℕ) × (try_from_bytes b ≡ valid body)
      × (try_from_body body ≡ valid body)
      × (to_string body ≡ b)
unfolding try_from_bytes try_from_body
to_string-try_from_bytes b h l =
    let (vs, codes) = codes_of b h in
    let same = length-AreCodes b vs codes in
    let small : horner 0 vs < 2 ^ 54 =
      let most : weight (length vs) ≤ weight 9 = weight_mono (length vs) 9 (omega (arith, same)) in
      let bound = horner_bound vs (AreCodes-AreDigits b vs codes) in omega (arith, most, bound) in
    let low : horner 0 vs % 2 ^ 54 ≡ horner 0 vs = omega (arith, small) in
    let holds : Holds (horner 0 vs) (zeros (9 - length b) ++ vs) =
      low ∙ sym (horner-zeros-append (9 - length b) vs) in
    (
      horner 0 vs,
      encode_from_lem (length b) 0 0 b vs codes (omega arith) (omega arith),
      (let kept : (horner 0 vs % 2 ^ 54 == horner 0 vs) ≡ true = ground (arith, low) in rw kept),
      to_string_lem (9 - length b) (horner 0 vs) b vs codes (omega (arith, same, l)) holds,
    )
