-- ===== src/Batch.antt =====
-- internal/buildbatch: batch builds from a list of images.
pub mod Counters
pub mod FailureLog
pub mod Specs
pub mod Capture
pub mod Command
pub mod Scheduler
pub mod Daemon
pub mod ResultDb
pub mod Queries
pub mod Options
pub mod Preparation
