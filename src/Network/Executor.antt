-- ===== src/Network/Executor.antt =====
-- internal/network/executor/{command,tun,route,route_idempotency,policy_rule,tun_device}.go: applying, checking and
-- undoing a plan with `ip`. The commands that run make a log, and the host answers each from the log so far.
pub mod Command
pub mod Route
pub mod PolicyRule
pub mod TunDevice
pub mod Tun
pub mod Undone
pub mod ReadOnly
pub mod Applied
pub mod Adding
pub mod Steps
pub mod Resolved
pub mod Nftables
pub mod Full
