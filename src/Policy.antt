-- ===== src/Policy.antt =====
-- The action policy of src/policy.mjs.
pub mod Environment
pub mod EnvironmentSound
pub mod Request
pub mod Rules
pub mod Delivery
pub mod Evaluate
pub mod RuleChecks
pub mod Guarantees
pub mod Allowed
pub mod AllowedEnvironments
pub mod Staging
pub mod StagingOverride
mod DecisionExamples
mod StagingExamples
mod Examples
