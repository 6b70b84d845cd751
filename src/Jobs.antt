-- ===== src/Jobs.antt =====
-- The timers of apps/workflow-service: jobs.ts and the loop of scheduler.ts.
pub mod Store
pub mod Lease
pub mod Scheduler
pub mod Pass
pub mod Settling
pub mod Drained
mod Examples
