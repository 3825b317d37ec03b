-- ===== src/Membership.antt =====
-- Membership subscriptions and their cycles (inc/capabilities/membership).
pub mod Model
pub mod Commands
pub mod Service
pub mod Cycles
mod Tests
