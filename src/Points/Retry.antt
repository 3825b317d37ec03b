-- ===== src/Points/Retry.antt =====
-- Commands sent again under the same idempotency key.
pub mod Frame
pub mod Grows
pub mod Bookings
pub mod Corrections
pub mod Kept
pub mod Booked
pub mod Debited
pub mod Credited
