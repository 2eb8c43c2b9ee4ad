-- ===== src/Prelude/Words.antt =====
-- Rust's unsigned machine integers as native numbers: the bounds of `u32` and `u64` and the
-- saturating and checked operations that the source calls on them. The operations of a width
-- take its greatest value first. `usize` is the 64-bit one.
use Prim.Native.Nat.{ℕ, ◌+◌, ◌-◌, ◌*◌, ◌^◌, ◌/◌, min}
use mathlib.Core.Path.{◌≡◌}
use mathlib.Core.Option.{Option, none, some}
use native.Mathlib.Omega.{arith}
use rs_stellar_contract_env.Prelude.Tests.{leb, ltb, if◌then◌else◌}

-- `u32::MAX`
abbrev pub u32_max : ℕ
u32_max = 2 ^ 32 - 1

-- `u64::MAX`, which is `usize::MAX`
abbrev pub u64_max : ℕ
u64_max = 2 ^ 64 - 1

-- `a.saturating_add(b)`
abbrev pub saturating_add : ℕ → ℕ → ℕ → ℕ
saturating_add m a b = if leb (a + b) m then a + b else m

-- `a.saturating_mul(b)`
abbrev pub saturating_mul : ℕ → ℕ → ℕ → ℕ
saturating_mul m a b = if leb (a * b) m then a * b else m

-- `a.saturating_sub(b)`: subtraction on ℕ stops at 0 as well
abbrev pub saturating_sub : ℕ → ℕ → ℕ
saturating_sub a b = a - b

-- `a.checked_add(b)`
abbrev pub checked_add : ℕ → ℕ → ℕ → Option ℕ
checked_add m a b = if leb (a + b) m then some (a + b) else none

-- `a.checked_sub(b)`
abbrev pub checked_sub : ℕ → ℕ → Option ℕ
checked_sub a b = if leb b a then some (a - b) else none

-- `a.checked_div(b)`
abbrev pub checked_div : ℕ → ℕ → Option ℕ
checked_div a b = if ltb 0 b then some (a / b) else none

pub saturating_add-eq-min : (m a b : ℕ) → saturating_add m a b ≡ min m (a + b)
saturating_add-eq-min m a b = ground arith

pub saturating_mul-eq-min : (m a b : ℕ) → saturating_mul m a b ≡ min m (a * b)
saturating_mul-eq-min m a b = ground arith
