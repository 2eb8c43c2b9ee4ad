-- ===== src/Tests/ValRuns.antt =====
-- The values of 7 and of -5.
use rs_stellar_contract_env.Prelude.{
  ℕ, ◌-◌, ◌^◌, ◌<◌, ◌≤◌, ◌≡◌, ◌==◌, refl, ◌↔◌, ◌⊎◌, none, some, true, arith, ltb, if◌then◌else◌,
}
use rs_stellar_contract_env.Error.{contract}
use rs_stellar_contract_env.Val.{bad, XdrErrors, from_u32, try_convert_u32, u64_small, from_u8}
use rs_stellar_contract_env.Val.Numbers.{is_good, try_from_i128, try_from_u64}
use rs_stellar_contract_env.Val.Tags.{from_u32_iff}
use rs_stellar_contract_env.Val.Representation.{FitsBody, Represents, try_from_i128_lem}

-- Only the errors of contracts are known.
abbrev contract_errors : XdrErrors
contract_errors = record {
  type_of = (λ n. if n == 0 then some contract else none);
  is_code = (λ n. ltb n 10);
}

abbrev minus_five : ℕ
minus_five = 340282366920938463463374607431768211451

minus_five_small : try_from_i128 minus_five ≡ some 18446744073709550347
unfolding try_from_i128
minus_five_small = refl

wide_refused : try_from_u64 u64_small (2 ^ 56) ≡ none
unfolding try_from_u64
wide_refused = refl

-- The discriminants of the bounds are no tags.
bound_refused : from_u8 15 ≡ bad
unfolding from_u8
bound_refused = refl

from_u32_iff_example :
    ((is_good contract_errors 30064771076 ≡ true) × (try_convert_u32 30064771076 ≡ some 7))
    ↔ (◌≡◌ {A = ℕ} 30064771076 (from_u32 7))
from_u32_iff_example = from_u32_iff contract_errors 30064771076 7 (omega arith) (omega arith)

try_from_i128_lem_example :
    (FitsBody minus_five × Represents minus_five)
    ⊎ ((2 ^ 55 ≤ minus_five) × (minus_five < 2 ^ 128 - 2 ^ 55) × (try_from_i128 minus_five ≡ none))
try_from_i128_lem_example = try_from_i128_lem minus_five (omega arith)
