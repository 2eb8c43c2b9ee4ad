-- ===== src/Budget/Wasmi.antt =====
-- soroban-env-host/src/budget/wasmi_helper.rs: what the engine asks before a memory or a table
-- grows. `none` stands for the engine's error, `OutOfBoundsGrowth` for a memory and
-- `GrowOutOfBounds` for a table.
use rs_stellar_contract_env.Prelude.{
  ℕ, ◌-◌, ◌≤◌, ◌≡◌, ◌↔◌, Bool, true, false, Option, none, some, if◌then◌else◌, ltb, leb, arith,
  u64_max, saturating_add, saturating_sub,
}
use rs_stellar_contract_env.Error.{Result, ok, err}
use rs_stellar_contract_env.Budget.CostType.{mem_alloc}
use rs_stellar_contract_env.Budget.Dimension.{get_remaining}
use rs_stellar_contract_env.Budget.Charge.{BudgetImpl, charge}
use rs_stellar_contract_env.Budget.Charge.Limits.{InputFits, count_after, bulk_charge_iff}

-- `FuelConfig::reset`
unfoldable pub reset_fuel_config : BudgetImpl → BudgetImpl
reset_fuel_config b = record b {
  fuel_config = record { base = 1; entity = 1; load = 1; store = 1; call = 1 };
}

-- `WASMI_LIMITS_CONFIG`
pub record WasmiLimits : Type 0 where
  pub table_elements : ℕ
  pub instances : ℕ
  pub tables : ℕ
  pub memories : ℕ

abbrev pub wasmi_limits_config : WasmiLimits
wasmi_limits_config = record { table_elements = 1000; instances = 1; tables = 1; memories = 1 }

abbrev pub within_maximum : ℕ → Option ℕ → Bool
within_maximum desired (some max) = leb desired max
within_maximum desired none = true

-- `track_wasm_mem_alloc`, of test builds only
unfoldable pub track_wasm_mem_alloc : ℕ → BudgetImpl → BudgetImpl
track_wasm_mem_alloc delta b = record b {
  tracker = record b.tracker { wasm_memory = saturating_add u64_max b.tracker.wasm_memory delta };
}

unfoldable pub as_growth : Result (Unit {0}) → Option Bool
as_growth (ok _) = some true
as_growth (err e) = none

unfoldable pub memory_growing : ℕ → ℕ → Option ℕ → BudgetImpl → Option Bool × BudgetImpl
unfolding get_remaining track_wasm_mem_alloc as_growth
memory_growing current desired maximum b =
    let host_limit = get_remaining b.mem_bytes in
    let delta = saturating_sub desired current in
    let allow : Bool = if ltb host_limit delta then false else within_maximum desired maximum in
    let charged = charge mem_alloc (some delta) (track_wasm_mem_alloc delta b) in
    if allow then (as_growth charged.0, charged.1) else (none, b)

unfoldable pub table_growing : ℕ → Option ℕ → Option Bool
table_growing desired maximum =
    let allow : Bool =
      if ltb wasmi_limits_config.table_elements desired
      then false
      else within_maximum desired maximum in
    if allow then some allow else none

-- What a limit that may be absent allows.
abbrev pub WithinMaximum : ℕ → Option ℕ → Type 0
WithinMaximum desired (some max) = desired ≤ max
WithinMaximum desired none = Unit

-- A table may grow exactly to sizes of at most 1000 elements within the maximum that its module
-- declares.
pub table_growing_iff :
    (desired : ℕ) (maximum : Option ℕ)
    → (table_growing desired maximum ≡ some true)
      ↔ ((desired ≤ 1000) × WithinMaximum desired maximum)
unfolding table_growing
table_growing_iff desired maximum = ground arith

-- Outside shadow mode a memory may grow exactly where the growth is at most the bytes that remain,
-- the size is within the maximum that the module declares, and the budget covers the charge for
-- the growth in both resources.
pub memory_growing_iff :
    (current desired : ℕ) (maximum : Option ℕ) (b : BudgetImpl)
    → b.is_in_shadow_mode ≡ false
    → InputFits b mem_alloc (some (desired - current))
    → ((memory_growing current desired maximum b).0 ≡ some true) ↔ (
        (desired - current ≤ get_remaining b.mem_bytes)
        × WithinMaximum desired maximum
        × (count_after b.cpu_insns mem_alloc (some (desired - current)) 1 ≤ b.cpu_insns.limit)
        × (count_after b.mem_bytes mem_alloc (some (desired - current)) 1 ≤ b.mem_bytes.limit))
unfolding memory_growing charge
memory_growing_iff current desired maximum b h k = ground (
  arith,
  bulk_charge_iff mem_alloc 1 (some (desired - current))
      (track_wasm_mem_alloc (desired - current) b) h,
)
