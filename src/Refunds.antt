-- ===== src/Refunds.antt =====
-- Money back to borrowers: apps/api/src/modules/payments/refunds.service.ts.
pub mod Rows
pub mod Service
pub mod Bounds
pub mod Sending
pub mod Starting
mod Tests
