-- ===== src/Subscription.antt =====
-- internal/sub: the stored subscriptions, and the workflow that imports and updates them.
pub mod Source
pub mod Sources
pub mod Workflow
