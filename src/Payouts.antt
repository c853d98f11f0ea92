-- ===== src/Payouts.antt =====
-- Lender payouts: the transfers of apps/api/src/modules/payouts/payouts.service.ts.
pub mod Transfers
pub mod Lifecycle
pub mod Booking
pub mod Sent
pub mod Cancelled
mod Tests
