-- ===== src/Daemon.antt =====
-- internal/builddaemon: the HTTP build daemon.
pub mod Task
pub mod Build
pub mod Store
pub mod Lifecycle
pub mod Steps
pub mod Hash
pub mod Pool
pub mod Addresses
pub mod Attempt
pub mod Run
pub mod Request
pub mod Queue
pub mod Modes
pub mod Scheduler
pub mod Router
pub mod Workspace
pub mod Archive
pub mod HostRules
pub mod Registry
