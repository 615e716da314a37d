-- ===== src/PullRequests.antt =====
-- The pull requests of src/pr.mjs.
pub mod Records
pub mod Observations
pub mod Readiness
pub mod Gaps
mod Examples
