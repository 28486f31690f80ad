-- ===== src/Examples.antt =====
-- Concrete inputs on which the theorems hold, and runs of the code's definitions.
mod State
mod Recovery
mod Network
mod Executor
mod Daemon
mod Connect
mod Interrupted
mod Profiles
mod Subscriptions
