-- ===== src/Evidence.antt =====
-- The evidence of executions, artifacts and deployments: src/provider-adapters.mjs and
-- src/current-evidence.mjs.
pub mod Texts
pub mod Identity
pub mod Records
pub mod Current
pub mod Deployment
pub mod Chain
mod Examples
