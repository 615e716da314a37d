-- ===== src/Authority.antt =====
-- Decisions of the user and what they authorise: src/authority.mjs, with the destination check of
-- src/current-evidence.mjs.
pub mod Records
pub mod Active
pub mod Scope
pub mod Permission
pub mod Revocation
pub mod Grants
pub mod PhaseOrder
pub mod Fixtures
mod Examples
