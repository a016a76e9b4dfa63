-- ===== src/Workers.antt =====
-- The post-call workers of `apps/api/workers/`.
pub mod Recording
pub mod CrmSync
pub mod Analyze
pub mod Tasks
