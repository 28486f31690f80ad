-- ===== src/Network.antt =====
-- internal/network: the snapshot of the host's network and the plan of a full tunnel.
pub mod Snapshot
pub mod TunPlan
pub mod Compact
pub mod Firewall
pub mod Warnings
pub mod Parts
pub mod Undo
pub mod Planner
pub mod Executor
