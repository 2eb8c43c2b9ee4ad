-- ===== src/Symbol.antt =====
-- soroban-env-common/src/symbol.rs: the small symbols, up to nine characters of `[a-zA-Z0-9_]` in codes
-- of six bits. Characters are bytes; bodies are `u64`.
pub mod Codes
pub mod Decoding
pub mod RoundTrip
use rs_stellar_contract_env.Prelude.{
  ℕ, zero, suc, ◌+◌, ◌-◌, ◌*◌, ◌/◌, ◌%◌, ◌^◌, Bool, true, false, ◌&&◌, Option, none, some, List, [],
  ◌∷◌, length, ◌==◌, ltb, leb, if◌then◌else◌,
}

pub data SymbolError : Type 0 where
  too_long : ℕ → SymbolError
  bad_char : ℕ → SymbolError
  malformed_small : SymbolError

-- `Result<A, SymbolError>`
pub data Parsed (A : Type 0) : Type 0 where
  valid : A → Parsed A
  invalid : SymbolError → Parsed A

abbrev pub and_then : {A B : Type 0} → Parsed A → (A → Parsed B) → Parsed B
and_then (valid a) f = f a
and_then (invalid e) f = invalid e

abbrev pub max_small_chars : ℕ
max_small_chars = 9

abbrev within : ℕ → ℕ → ℕ → Bool
within low high n = leb low n && leb n high

-- The codes of `_`, the digits, the capitals and the small letters.
unfoldable pub encode_char : ℕ → Parsed ℕ
encode_char ch =
    if ch == 95
    then valid 1
    else if within 48 57 ch
    then valid (2 + (ch - 48))
    else if within 65 90 ch
    then valid (12 + (ch - 65))
    else if within 97 122 ch
    then valid (38 + (ch - 97))
    else invalid (bad_char ch)

-- `SymbolSmall::validate_char`
unfoldable pub validate_char : ℕ → Parsed (Unit {0})
unfolding encode_char
validate_char ch = and_then (encode_char ch) λ _. valid tt

-- The loop of `try_from_bytes` from the position `n` on. The shifted number ends in six bits of 0 and
-- a code is below 64, so that the bitwise or is the sum.
unfoldable pub encode_from : ℕ → ℕ → ℕ → List ℕ → Parsed ℕ
encode_from len n accum [] = valid accum
encode_from len n accum (ch ∷ b) =
    if leb max_small_chars n
    then invalid (too_long len)
    else and_then (encode_char ch) λ v. encode_from len (n + 1) (accum * 64 % 2 ^ 64 + v) b

unfoldable pub try_from_bytes : List ℕ → Parsed ℕ
unfolding encode_from
try_from_bytes b = encode_from (length b) 0 0 b

-- The bits of `SMALL_MASK` are the low 54.
unfoldable pub try_from_body : ℕ → Parsed ℕ
try_from_body body = if body % 2 ^ 54 == body then valid body else invalid malformed_small

unfoldable pub decode_code : ℕ → ℕ
decode_code n =
    if n == 1
    then 95
    else if within 2 11 n
    then 48 + n - 2
    else if within 12 37 n
    then 65 + n - 12
    else if within 38 63 n
    then 97 + n - 38
    else 0

-- The loop of `SymbolSmallIter::next`: the character, where there is one, and the iterator's number.
unfoldable pub next_from : ℕ → ℕ → Option ℕ × ℕ
next_from zero s = (none, s)
next_from (suc fuel) s =
    let rest = next_from fuel (s * 64 % 2 ^ 64) in
    let res = decode_code (s / 2 ^ 48 % 64) in
    if s == 0 then (none, s) else if res == 0 then rest else (some res, s * 64 % 2 ^ 64)

-- Eleven shifts by six bits empty a `u64`.
unfoldable pub next : ℕ → Option ℕ × ℕ
unfolding next_from
next s = next_from 11 s

-- What the iterator yields, up to a number of characters.
unfoldable pub chars : ℕ → ℕ → List ℕ
chars zero s = []
chars (suc fuel) s =
    let (ch, s') = next s in let rest = chars fuel s' in elim ch [ none ↦ [] | some c ↦ c ∷ rest ]

-- `SymbolSmall::to_string`; a body holds at most ten codes.
unfoldable pub to_string : ℕ → List ℕ
to_string body = chars 10 body
