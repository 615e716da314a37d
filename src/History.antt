-- ===== src/History.antt =====
-- The reduction of a test's history: src/validation-evidence.mjs.
pub mod Reduce
pub mod Newest
pub mod Worst
mod Examples
