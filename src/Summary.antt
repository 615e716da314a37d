-- ===== src/Summary.antt =====
-- The pages of a summary in src/core.mjs.
pub mod Page
pub mod PageReads
mod Examples
