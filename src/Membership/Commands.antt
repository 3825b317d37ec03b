-- ===== src/Membership/Commands.antt =====
-- The commands of inc/capabilities/membership/commands.py, each as one transaction.
pub mod Prepare
pub mod Settle
pub mod Stop
