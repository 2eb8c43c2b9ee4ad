-- ===== src/Budget.antt =====
-- The budget of soroban-env-host/src/budget.rs and of the files under soroban-env-host/src/budget.
pub mod CostType
pub mod Model
pub mod Dimension
pub mod Tracker
pub mod Charge
pub mod Limits
pub mod Shadow
pub mod Fuel
pub mod Wasmi
pub mod Defaults
pub mod Reset
