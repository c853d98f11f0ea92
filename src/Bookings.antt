-- ===== src/Bookings.antt =====
-- The booking rules of apps/api/src/modules/bookings/booking-rules.ts, without the database.
pub mod Status
pub mod Rules
pub mod Diagram
pub mod Policy
pub mod Timing
pub mod Refunding
mod Tests
