-- ===== src/State.antt =====
-- internal/state: the persisted transaction of a privileged mutation.
pub mod Status
pub mod Transaction
pub mod Lifecycle
pub mod Json
pub mod Secret
pub mod Validate
pub mod Disk
pub mod Store
