-- ===== src/Machine.antt =====
-- The booking state machine of apps/api/src/modules/bookings, over the rows it locks and writes.
pub mod Rows
pub mod Transition
pub mod Outcome
pub mod Invariant
pub mod Timer
pub mod Notices
pub mod Told
pub mod Ending
mod Tests
