-- ===== src/Val.antt =====
-- soroban-env-common/src/val.rs: the tagged values of 64 bits. A value is its payload, a body of 56 bits
-- over a tag of eight. A signed number is given by its bits, in two's complement.
pub mod Numbers
pub mod Representation
pub mod Tags
use rs_stellar_contract_env.Prelude.{
  ◌-◌, ℕ, ◌+◌, ◌*◌, ◌/◌, ◌%◌, ◌^◌, Bool, true, false, ◌&&◌, ◌||◌, not, Option, none, some, List, [],
  ◌∷◌, ◌==◌, ltb, if◌then◌else◌,
}
use rs_stellar_contract_env.Error.{ScErrorType, contract}

pub data Tag : Type 0 where
  false_tag true_tag void error u32_val i32_val u64_small i64_small timepoint_small : Tag
  duration_small u128_small i128_small u256_small i256_small symbol_small : Tag
  small_code_upper_bound object_code_lower_bound : Tag
  u64_object i64_object timepoint_object duration_object u128_object i128_object u256_object : Tag
  i256_object bytes_object string_object symbol_object vec_object map_object address_object : Tag
  object_code_upper_bound bad : Tag

-- `tag as u8`
unfoldable pub as_u8 : Tag → ℕ
as_u8 false_tag = 0
as_u8 true_tag = 1
as_u8 void = 2
as_u8 error = 3
as_u8 u32_val = 4
as_u8 i32_val = 5
as_u8 u64_small = 6
as_u8 i64_small = 7
as_u8 timepoint_small = 8
as_u8 duration_small = 9
as_u8 u128_small = 10
as_u8 i128_small = 11
as_u8 u256_small = 12
as_u8 i256_small = 13
as_u8 symbol_small = 14
as_u8 small_code_upper_bound = 15
as_u8 object_code_lower_bound = 63
as_u8 u64_object = 64
as_u8 i64_object = 65
as_u8 timepoint_object = 66
as_u8 duration_object = 67
as_u8 u128_object = 68
as_u8 i128_object = 69
as_u8 u256_object = 70
as_u8 i256_object = 71
as_u8 bytes_object = 72
as_u8 string_object = 73
as_u8 symbol_object = 74
as_u8 vec_object = 75
as_u8 map_object = 76
as_u8 address_object = 77
as_u8 object_code_upper_bound = 78
as_u8 bad = 127

-- The variants of `Tag` that a payload may have.
abbrev pub variants : List Tag
variants =
    false_tag ∷ true_tag ∷ void ∷ error ∷ u32_val ∷ i32_val ∷ u64_small ∷ i64_small
    ∷ timepoint_small ∷ duration_small ∷ u128_small ∷ i128_small ∷ u256_small ∷ i256_small
    ∷ symbol_small ∷ u64_object ∷ i64_object ∷ timepoint_object ∷ duration_object ∷ u128_object
    ∷ i128_object ∷ u256_object ∷ i256_object ∷ bytes_object ∷ string_object ∷ symbol_object
    ∷ vec_object ∷ map_object ∷ address_object ∷ []

-- `transmute`: the variant of a discriminant.
unfoldable pub transmute : List Tag → ℕ → Tag
unfolding as_u8
transmute [] n = bad
transmute (t ∷ ts) n = if as_u8 t == n then t else transmute ts n

-- `Tag::u8_is_object`
unfoldable pub u8_is_object : ℕ → Bool
unfolding as_u8
u8_is_object x = ltb (as_u8 object_code_lower_bound) x && ltb x (as_u8 object_code_upper_bound)

unfoldable pub from_u8 : ℕ → Tag
unfolding as_u8 transmute
from_u8 tag =
    if ltb tag (as_u8 small_code_upper_bound)
      || ltb (as_u8 object_code_lower_bound) tag && ltb tag (as_u8 object_code_upper_bound)
    then transmute variants tag
    else bad

unfoldable pub get_tag_u8 : ℕ → ℕ
get_tag_u8 v = v % 2 ^ 8

unfoldable pub get_tag : ℕ → Tag
unfolding get_tag_u8 from_u8
get_tag v = from_u8 (get_tag_u8 v)

unfoldable pub get_body : ℕ → ℕ
get_body v = v / 2 ^ 8

-- `>>` on an `i64`, which repeats the sign, by eight bits.
unfoldable pub shift_signed : ℕ → ℕ
shift_signed i = if ltb i (2 ^ 63) then i / 2 ^ 8 else i / 2 ^ 8 + (2 ^ 64 - 2 ^ 56)

unfoldable pub get_signed_body : ℕ → ℕ
unfolding shift_signed
get_signed_body v = shift_signed v

unfoldable pub has_body : ℕ → ℕ → Bool
unfolding get_body
has_body v body = get_body v == body

unfoldable pub has_tag : ℕ → Tag → Bool
unfolding get_tag_u8 as_u8
has_tag v tag = get_tag_u8 v == as_u8 tag

unfoldable pub get_minor : ℕ → ℕ
unfolding get_body
get_minor v = get_body v % 2 ^ 24

unfoldable pub get_major : ℕ → ℕ
unfolding get_body
get_major v = get_body v / 2 ^ 24

unfoldable pub has_minor : ℕ → ℕ → Bool
unfolding get_minor
has_minor v minor = get_minor v == minor

-- The shifted body ends in eight bits of 0, so that the bitwise or is the sum.
unfoldable pub from_body_and_tag : ℕ → Tag → ℕ
unfolding as_u8
from_body_and_tag body tag = body * 2 ^ 8 % 2 ^ 64 + as_u8 tag

-- `from_major_minor_and_tag` at the minor 0.
unfoldable pub from_major_and_tag : ℕ → Tag → ℕ
unfolding from_body_and_tag
from_major_and_tag major tag = from_body_and_tag (major * 2 ^ 24) tag

unfoldable pub from_void : ℕ
unfolding from_body_and_tag
from_void = from_body_and_tag 0 void

unfoldable pub from_bool : Bool → ℕ
unfolding from_body_and_tag
from_bool b = from_body_and_tag 0 (if b then true_tag else false_tag)

unfoldable pub from_u32 : ℕ → ℕ
unfolding from_major_and_tag
from_u32 u = from_major_and_tag u u32_val

unfoldable pub from_i32 : ℕ → ℕ
unfolding from_major_and_tag
from_i32 i = from_major_and_tag i i32_val

-- `bool::try_convert`
unfoldable pub try_convert_bool : ℕ → Option Bool
unfolding has_tag
try_convert_bool v =
    if has_tag v true_tag then some true else if has_tag v false_tag then some false else none

-- `try_convert` of `u32`
unfoldable pub try_convert_u32 : ℕ → Option ℕ
unfolding has_tag get_major
try_convert_u32 v = if has_tag v u32_val then some (get_major v) else none

-- `try_convert` of `i32`
unfoldable pub try_convert_i32 : ℕ → Option ℕ
unfolding has_tag get_major
try_convert_i32 v = if has_tag v i32_val then some (get_major v) else none

-- The conversions of numbers to the enumerations of the XDR definitions.
pub record XdrErrors : Type 0 where
  pub type_of : ℕ → Option ScErrorType
  pub is_code : ℕ → Bool

abbrev pub is_error_of : XdrErrors → ℕ → Option ScErrorType → Bool
is_error_of x major none = false
is_error_of x major (some contract) = true
is_error_of x major (some ty) = x.is_code major

-- `ScError::try_from(Error)`, whether it succeeds
unfoldable pub is_error : XdrErrors → ℕ → Bool
unfolding get_minor get_major
is_error x v = is_error_of x (get_major v) (x.type_of (get_minor v))
