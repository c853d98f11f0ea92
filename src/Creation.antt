-- ===== src/Creation.antt =====
-- New bookings: `request` and `createFromOffer` of apps/api/src/modules/bookings/bookings.service.ts.
pub mod Bookings
pub mod Amounts
mod Tests
