-- ===== src/Scheduling.antt =====
-- The validation scheduler of scripts/test-scheduling.mjs.
pub mod Workers
pub mod WorkersBounds
pub mod Pool
pub mod PoolTotals
pub mod PoolInvariant
pub mod PoolSettle
pub mod PoolRuns
pub mod PoolProgress
pub mod PoolTermination
mod Examples
