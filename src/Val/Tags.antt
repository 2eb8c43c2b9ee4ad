-- ===== src/Val/Tags.antt =====
-- The tags of payloads, and which payloads are good values.
use rs_stellar_contract_env.Prelude.{
  ℕ, ◌+◌, ◌*◌, ◌/◌, ◌%◌, ◌^◌, ◌<◌, ◌≡◌, refl, sym, ◌∙◌, ap, ◌↔◌, true, some, arith,
}
use rs_stellar_contract_env.Val.{
  u32_val, as_u8, transmute, from_u8, get_tag_u8, get_tag, get_body, get_minor, get_major,
  has_minor, has_tag, from_body_and_tag, from_major_and_tag, from_u32, try_convert_u32, XdrErrors,
}
use rs_stellar_contract_env.Val.Numbers.{is_good_of, is_good}

-- The fields of a good `u32` are those of the value that its constructor builds.
pack :
    (v u : ℕ)
    → v < 2 ^ 64
    → v % 2 ^ 8 ≡ 4
    → v / 2 ^ 8 % 2 ^ 24 ≡ 0
    → v / 2 ^ 8 / 2 ^ 24 ≡ u
    → v ≡ u * 2 ^ 24 * 2 ^ 8 % 2 ^ 64 + 4
pack v u b t m h = omega arith

tag_u32 : (v : ℕ) → v % 2 ^ 8 ≡ 4 → get_tag v ≡ u32_val
unfolding get_tag get_tag_u8 from_u8 transmute as_u8
tag_u32 v h = ap from_u8 h

good_u32 : (x : XdrErrors) (v : ℕ) → v % 2 ^ 8 ≡ 4 → is_good x v ≡ has_minor v 0
unfolding is_good
good_u32 x v h = ap (is_good_of x v) (tag_u32 v h)

-- What reads as a `u32`.
reads_u32 : (v u : ℕ) → try_convert_u32 v ≡ some u → (v % 2 ^ 8 ≡ 4) × (v / 2 ^ 8 / 2 ^ 24 ≡ u)
unfolding try_convert_u32 has_tag get_tag_u8 as_u8 get_major get_body
reads_u32 v u h = ground (arith, h)

minor_zero : (v : ℕ) → has_minor v 0 ≡ true → v / 2 ^ 8 % 2 ^ 24 ≡ 0
unfolding has_minor get_minor get_body
minor_zero v h = ground (arith, h)

built_reads : (u : ℕ) → u < 2 ^ 32 → try_convert_u32 (u * 2 ^ 24 * 2 ^ 8 % 2 ^ 64 + 4) ≡ some u
unfolding try_convert_u32 has_tag get_tag_u8 as_u8 get_major get_body
built_reads u h = ground arith

built_minor : (u : ℕ) → u < 2 ^ 32 → has_minor (u * 2 ^ 24 * 2 ^ 8 % 2 ^ 64 + 4) 0 ≡ true
unfolding has_minor get_minor get_body
built_minor u h = ground arith

from_u32_is : (u : ℕ) → from_u32 u ≡ u * 2 ^ 24 * 2 ^ 8 % 2 ^ 64 + 4
unfolding from_u32 from_major_and_tag from_body_and_tag as_u8
from_u32_is u = refl

-- A payload of 64 bits is a good value that reads as a number of 32 bits exactly if it is the value
-- that the constructor builds of that number.
pub from_u32_iff :
    (x : XdrErrors) (v u : ℕ)
    → v < 2 ^ 64
    → u < 2 ^ 32
    → ((is_good x v ≡ true) × (try_convert_u32 v ≡ some u)) ↔ (v ≡ from_u32 u)
from_u32_iff x v u b w = (
  λ h.
      (let (tag, major) = reads_u32 v u h.1 in
        let minor = minor_zero v (sym (good_u32 x v tag) ∙ h.0) in
        pack v u b tag minor major ∙ sym (from_u32_is u)),
  λ h.
      (let built = u * 2 ^ 24 * 2 ^ 8 % 2 ^ 64 + 4 in
        let e = h ∙ from_u32_is u in
        let tag : (u * 2 ^ 24 * 2 ^ 8 % 2 ^ 64 + 4) % 2 ^ 8 ≡ 4 = omega arith in
        (
          ap (is_good x) e ∙ good_u32 x built tag ∙ built_minor u w,
          ap try_convert_u32 e ∙ built_reads u w,
        )),
)
