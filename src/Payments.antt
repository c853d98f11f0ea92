-- ===== src/Payments.antt =====
-- Payments of bookings: apps/api/src/modules/payments/payments.service.ts.
pub mod Rows
pub mod Cancelling
pub mod Capture
pub mod Confirming
pub mod Once
pub mod Settling
pub mod Settled
pub mod Cancelled
pub mod Preview
pub mod Verifying
mod Tests
