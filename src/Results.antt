-- ===== src/Results.antt =====
-- The observed results of external operations: src/external-results.mjs.
pub mod Observed
pub mod Records
pub mod Validate
pub mod Unused
pub mod Founded
pub mod Sound
mod Examples
