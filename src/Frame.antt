-- ===== src/Frame.antt =====
-- The stack of frames, soroban-env-host/src/host/frame.rs: calls push a frame, run in it and pop it,
-- and a failing one takes its effects back.
pub mod Types
pub mod Stack
pub mod Instance
pub mod Run
pub mod Running
pub mod Call
pub mod Stays
pub mod Pushing
pub mod Popping
pub mod Rollback
pub mod Reentry
