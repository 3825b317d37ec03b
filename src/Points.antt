-- ===== src/Points.antt =====
-- The points capability (inc/capabilities/points).
pub mod Model
pub mod Buckets
pub mod Accounts
pub mod Limits
pub mod Commands
pub mod Service
pub mod Ledger
pub mod Retry
mod Tests
