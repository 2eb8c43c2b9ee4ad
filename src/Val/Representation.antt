-- ===== src/Val/Representation.antt =====
-- What values represent.
use rs_stellar_contract_env.Prelude.{
  Bool-cases, ℕ, ◌+◌, ◌-◌, ◌*◌, ◌%◌, ◌^◌, ◌≤◌, ◌<◌, ◌≡◌, ap, ◌⊎◌, inl, inr, true, false, none, some,
  ◌==◌, ltb, arith,
}
use rs_stellar_contract_env.Val.{
  i128_small, as_u8, transmute, from_u8, get_tag_u8, get_tag, get_signed_body, shift_signed,
  from_body_and_tag,
}
use rs_stellar_contract_env.Val.Numbers.{
  is_small_i64, is_small_i128, to_i128, try_from_i128, i128_of,
}

lt_cases : (a b : ℕ) → (b ≤ a) ⊎ (a < b)
lt_cases a b = elim (Bool-cases (ltb a b)) [
  | inl e ↦ inr (ground arith)
  | inr e ↦ inl (ground arith)
]

-- The bits of a number of 64 bits that fits into the 56 of a body.
small_low : (i : ℕ) → i < 2 ^ 55 → is_small_i64 i ≡ true
unfolding is_small_i64 shift_signed
small_low i h = ground arith

small_high : (i : ℕ) → 2 ^ 64 - 2 ^ 55 ≤ i → i < 2 ^ 64 → is_small_i64 i ≡ true
unfolding is_small_i64 shift_signed
small_high i h k = ground arith

not_small : (i : ℕ) → 2 ^ 55 ≤ i → i < 2 ^ 64 - 2 ^ 55 → is_small_i64 i ≡ false
unfolding is_small_i64 shift_signed
not_small i h k = ground arith

signed_low : (i t : ℕ) → i < 2 ^ 55 → t < 2 ^ 8 → shift_signed (i * 2 ^ 8 % 2 ^ 64 + t) ≡ i
unfolding shift_signed
signed_low i t h k = ground arith

signed_high :
    (i t : ℕ)
    → 2 ^ 64 - 2 ^ 55 ≤ i
    → i < 2 ^ 64
    → t < 2 ^ 8
    → shift_signed (i * 2 ^ 8 % 2 ^ 64 + t) ≡ i
unfolding shift_signed
signed_high i t h k l = ground arith

-- The same of 128 bits.
wide_low : (i : ℕ) → i < 2 ^ 55 → is_small_i128 i ≡ true
unfolding is_small_i128 to_i128
wide_low i h =
    let word : i % 2 ^ 64 ≡ i = omega arith in
    let sign : ltb i (2 ^ 63) ≡ true = ground arith in
    let same : (i == i) ≡ true = ground arith in rw (word, small_low i h, sign, same)

wide_high : (i : ℕ) → 2 ^ 128 - 2 ^ 55 ≤ i → i < 2 ^ 128 → is_small_i128 i ≡ true
unfolding is_small_i128 to_i128
wide_high i h k =
    let small = small_high (i % 2 ^ 64) (omega arith) (omega arith) in
    let sign : ltb (i % 2 ^ 64) (2 ^ 63) ≡ false = ground arith in
    let same : (i == i % 2 ^ 64 + (2 ^ 128 - 2 ^ 64)) ≡ true = ground arith in
    rw (small, sign, same)

not_wide : (i : ℕ) → 2 ^ 55 ≤ i → i < 2 ^ 128 - 2 ^ 55 → is_small_i128 i ≡ false
unfolding is_small_i128 to_i128
not_wide i h k = elim (lt_cases (i % 2 ^ 64) (2 ^ 55)) [
  | inr low ↦
      let sign : ltb (i % 2 ^ 64) (2 ^ 63) ≡ true = ground arith in
      let other : (i == i % 2 ^ 64) ≡ false = ground arith in
      rw (small_low (i % 2 ^ 64) low, sign, other)
  | inl above ↦ elim (lt_cases (i % 2 ^ 64) (2 ^ 64 - 2 ^ 55)) [
    | inr mid ↦ rw (not_small (i % 2 ^ 64) above mid)
    | inl high ↦
        let sign : ltb (i % 2 ^ 64) (2 ^ 63) ≡ false = ground arith in
        let other : (i == i % 2 ^ 64 + (2 ^ 128 - 2 ^ 64)) ≡ false = ground arith in
        rw (small_high (i % 2 ^ 64) high (omega arith), sign, other)
  ]
]

tag_i128 : (i : ℕ) → get_tag (i * 2 ^ 8 % 2 ^ 64 + 11) ≡ i128_small
unfolding get_tag get_tag_u8 from_u8 transmute as_u8
tag_i128 i = let tag : (i * 2 ^ 8 % 2 ^ 64 + 11) % 2 ^ 8 ≡ 11 = omega arith in ap from_u8 tag

-- A small value of a signed number of 128 bits, from which the number is read.
abbrev pub Represents : ℕ → Type 0
Represents i = (v : ℕ) × (try_from_i128 i ≡ some v) × (get_tag v ≡ i128_small) × (i128_of v ≡ i)

Represents-low : (i : ℕ) → i < 2 ^ 55 → Represents i
unfolding try_from_i128 from_body_and_tag as_u8 i128_of get_signed_body to_i128
Represents-low i h =
    let word : i % 2 ^ 64 ≡ i = omega arith in
    let body : shift_signed (i * 2 ^ 8 % 2 ^ 64 + 11) ≡ i = signed_low i 11 h (omega arith) in
    let sign : ltb i (2 ^ 63) ≡ true = ground arith in
    (i * 2 ^ 8 % 2 ^ 64 + 11, rw (wide_low i h, word), tag_i128 i, rw (body, sign))

Represents-high : (i : ℕ) → 2 ^ 128 - 2 ^ 55 ≤ i → i < 2 ^ 128 → Represents i
unfolding try_from_i128 from_body_and_tag as_u8 i128_of get_signed_body to_i128
Represents-high i h k =
    let word = i % 2 ^ 64 in
    let body : shift_signed (i % 2 ^ 64 * 2 ^ 8 % 2 ^ 64 + 11) ≡ i % 2 ^ 64 =
      signed_high (i % 2 ^ 64) 11 (omega arith) (omega arith) (omega arith) in
    let sign : ltb (i % 2 ^ 64) (2 ^ 63) ≡ false = ground arith in
    (
      i % 2 ^ 64 * 2 ^ 8 % 2 ^ 64 + 11,
      rw (wide_high i h k),
      tag_i128 (i % 2 ^ 64),
      rw (body, sign) (omega arith),
    )

-- The bits of a signed number of 128 bits that 56 bits can hold, the sign among them.
abbrev pub FitsBody : ℕ → Type 0
FitsBody i = (i < 2 ^ 55) ⊎ (2 ^ 128 - 2 ^ 55 ≤ i)

-- An `i128`, given by its bits, that lies from -2^55 up to but not including 2^55 becomes a small value
-- with the tag of its type, from which the same number is read; any other is refused.
pub try_from_i128_lem :
    (i : ℕ)
    → i < 2 ^ 128
    → (FitsBody i × Represents i)
      ⊎ ((2 ^ 55 ≤ i) × (i < 2 ^ 128 - 2 ^ 55) × (try_from_i128 i ≡ none))
unfolding try_from_i128
try_from_i128_lem i k = elim (lt_cases i (2 ^ 55)) [
  | inr low ↦ inl (inl low, Represents-low i low)
  | inl above ↦ elim (lt_cases i (2 ^ 128 - 2 ^ 55)) [
    | inr mid ↦ inr (above, mid, rw (not_wide i above mid))
    | inl high ↦ inl (inr high, Represents-high i high k)
  ]
]
