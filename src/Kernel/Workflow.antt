-- ===== src/Kernel/Workflow.antt =====
-- The persistent workflow runner (inc/kernel/workflow).
pub mod Model
pub mod Signals
pub mod Settle
pub mod Step
pub mod Runner
pub mod Order
pub mod Handling
pub mod Progress
pub mod Termination
pub mod Growth
pub mod Kept
pub mod Served
pub mod Once
pub mod Executed
pub mod Attempts
pub mod Arrivals
pub mod History
pub mod Claims
pub mod Service
mod Tests
