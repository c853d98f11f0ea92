-- ===== src/Sharing.antt =====
-- Documents shared for a booking: apps/api/src/modules/bookings/booking-documents.service.ts.
pub mod Documents
pub mod Opening
pub mod Picked
pub mod Access
mod Tests
