-- ===== src/Operations.antt =====
-- The operation ledger of src/operations.mjs.
pub mod Records
pub mod Recording
pub mod Ledger
pub mod Proofs
pub mod Lifecycle
pub mod Dispatch
pub mod Boundary
pub mod Invalidation
pub mod Superseded
pub mod Runs
pub mod Sequences
pub mod Reservations
mod Examples
