-- ===== src/Daemon.antt =====
-- internal/daemon: the transaction of a tunnel, what it writes to disk and what it does to the host.
pub mod Metadata
pub mod Recoverable
pub mod Desired
pub mod Restored
pub mod Partial
pub mod RoundTrip
pub mod Processes
pub mod World
pub mod Run
pub mod Connect
pub mod Interrupted
