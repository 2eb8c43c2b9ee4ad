-- ===== src/Val/Numbers.antt =====
-- `Val::is_good` of soroban-env-common/src/val.rs, and the small numbers of
-- soroban-env-common/src/num.rs, with signed numbers given by their bits.
use rs_stellar_contract_env.Prelude.{
  ℕ, ◌+◌, ◌*◌, ◌/◌, ◌%◌, ◌^◌, ◌-◌, Bool, true, false, ◌&&◌, Option, none, some, ◌==◌, ltb,
  if◌then◌else◌,
}
use rs_stellar_contract_env.Symbol.{Parsed, valid, invalid, try_from_body}
use rs_stellar_contract_env.Val.{
  Tag, false_tag, true_tag, void, error, u32_val, i32_val, u64_small, i64_small, timepoint_small,
  duration_small, u128_small, i128_small, u256_small, i256_small, symbol_small,
  small_code_upper_bound, object_code_lower_bound, u64_object, i64_object, timepoint_object,
  duration_object, u128_object, i128_object, u256_object, i256_object, bytes_object, string_object,
  symbol_object, vec_object, map_object, address_object, object_code_upper_bound, bad, get_tag,
  get_body, get_signed_body, has_body, has_minor, shift_signed, from_body_and_tag, XdrErrors,
  is_error,
}

abbrev pub is_valid : {A : Type 0} → Parsed A → Bool
is_valid (valid a) = true
is_valid (invalid e) = false

abbrev pub is_good_of : XdrErrors → ℕ → Tag → Bool
is_good_of x v bad = false
is_good_of x v small_code_upper_bound = false
is_good_of x v object_code_lower_bound = false
is_good_of x v object_code_upper_bound = false
is_good_of x v true_tag = has_body v 0
is_good_of x v false_tag = has_body v 0
is_good_of x v void = has_body v 0
is_good_of x v i32_val = has_minor v 0
is_good_of x v u32_val = has_minor v 0
is_good_of x v error = is_error x v
is_good_of x v symbol_small = is_valid (try_from_body (get_body v))
is_good_of x v u64_small = true
is_good_of x v i64_small = true
is_good_of x v timepoint_small = true
is_good_of x v duration_small = true
is_good_of x v u128_small = true
is_good_of x v i128_small = true
is_good_of x v u256_small = true
is_good_of x v i256_small = true
is_good_of x v u64_object = has_minor v 0
is_good_of x v i64_object = has_minor v 0
is_good_of x v timepoint_object = has_minor v 0
is_good_of x v duration_object = has_minor v 0
is_good_of x v u128_object = has_minor v 0
is_good_of x v i128_object = has_minor v 0
is_good_of x v u256_object = has_minor v 0
is_good_of x v i256_object = has_minor v 0
is_good_of x v bytes_object = has_minor v 0
is_good_of x v string_object = has_minor v 0
is_good_of x v symbol_object = has_minor v 0
is_good_of x v vec_object = has_minor v 0
is_good_of x v map_object = has_minor v 0
is_good_of x v address_object = has_minor v 0

unfoldable pub is_good : XdrErrors → ℕ → Bool
is_good x v = is_good_of x v (get_tag v)

unfoldable pub is_small_u64 : ℕ → Bool
is_small_u64 u = u == u * 2 ^ 8 % 2 ^ 64 / 2 ^ 8

unfoldable pub is_small_i64 : ℕ → Bool
unfolding shift_signed
is_small_i64 i = i == shift_signed (i * 2 ^ 8 % 2 ^ 64)

unfoldable pub is_small_u128 : ℕ → Bool
unfolding is_small_u64
is_small_u128 u = is_small_u64 (u % 2 ^ 64) && u == u % 2 ^ 64

-- `word as i128`
unfoldable pub to_i128 : ℕ → ℕ
to_i128 word = if ltb word (2 ^ 63) then word else word + (2 ^ 128 - 2 ^ 64)

unfoldable pub is_small_i128 : ℕ → Bool
unfolding is_small_i64 to_i128
is_small_i128 i = is_small_i64 (i % 2 ^ 64) && i == to_i128 (i % 2 ^ 64)

-- `TryFrom<u64>` for `U64Small`, `TimepointSmall` and `DurationSmall`, by their tags.
unfoldable pub try_from_u64 : Tag → ℕ → Option ℕ
unfolding is_small_u64 from_body_and_tag
try_from_u64 tag value = if is_small_u64 value then some (from_body_and_tag value tag) else none

-- `TryFrom<i64>` for `I64Small`
unfoldable pub try_from_i64 : ℕ → Option ℕ
unfolding is_small_i64 from_body_and_tag
try_from_i64 value = if is_small_i64 value then some (from_body_and_tag value i64_small) else none

-- `TryFrom<u128>` for `U128Small`
unfoldable pub try_from_u128 : ℕ → Option ℕ
unfolding is_small_u128 from_body_and_tag
try_from_u128 value =
    if is_small_u128 value then some (from_body_and_tag (value % 2 ^ 64) u128_small) else none

-- `TryFrom<i128>` for `I128Small`
unfoldable pub try_from_i128 : ℕ → Option ℕ
unfolding is_small_i128 from_body_and_tag
try_from_i128 value =
    if is_small_i128 value then some (from_body_and_tag (value % 2 ^ 64) i128_small) else none

-- `From<U64Small>` for `u64`, and of `TimepointSmall`, `DurationSmall` and `U128Small`.
unfoldable pub unsigned_of : ℕ → ℕ
unfolding get_body
unsigned_of v = get_body v

-- `From<I64Small>` for `i64`
unfoldable pub i64_of : ℕ → ℕ
unfolding get_signed_body
i64_of v = get_signed_body v

-- `From<I128Small>` for `i128`
unfoldable pub i128_of : ℕ → ℕ
unfolding get_signed_body to_i128
i128_of v = to_i128 (get_signed_body v)
