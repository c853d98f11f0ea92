-- ===== src/Acting.antt =====
-- What people and the timers do with bookings: apps/api/src/modules/bookings/bookings.service.ts.
pub mod Calls
pub mod Swept
pub mod Promised
mod Tests
