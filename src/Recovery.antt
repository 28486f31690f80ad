-- ===== src/Recovery.antt =====
-- internal/recovery: the recovery of what a daemon that has stopped may have left behind.
pub mod Host
pub mod Command
pub mod Results
pub mod Os
pub mod Metadata
pub mod Rollback
pub mod Allowed
pub mod Daemon
pub mod Plan
