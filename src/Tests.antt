-- ===== src/Tests.antt =====
-- Concrete maps, storages and budgets, and the theorems applied to them.
pub mod Concrete
pub mod MapRuns
pub mod BudgetRuns
pub mod FeeRuns
pub mod AssetRuns
pub mod FrameRuns
pub mod ValRuns
pub mod VectorRuns
pub mod StorageRuns
pub mod SymbolRuns
