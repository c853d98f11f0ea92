-- ===== src/Pricing.antt =====
-- Quotes of apps/api/src/modules/listings/pricing.ts.
pub mod Quotes
pub mod Availability
pub mod Amount
mod Tests
