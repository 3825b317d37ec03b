-- ===== src/Kernel.antt =====
-- The runtime of inc/kernel that the capabilities build on: errors, retries, the outbox, the inbox
-- and the task queue.
pub mod Errors
pub mod Retry
pub mod Lease
pub mod Outbox
pub mod Tasks
pub mod Workflow
pub mod Registry
pub mod Cron
pub mod Inbox
mod Tests
