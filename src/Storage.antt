-- ===== src/Storage.antt =====
-- soroban-env-host/src/storage.rs: the storage of a transaction, a map of ledger entries whose
-- access a footprint governs.
pub mod Ledger
pub mod Access
pub mod Footprint
pub mod Enforcing
pub mod Writing
pub mod Recording
pub mod Ttl
