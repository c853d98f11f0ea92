-- ===== src/Credits.antt =====
-- Referral credit: apps/api/src/modules/referrals/credits.ts and the credit operations of
-- apps/api/src/modules/referrals/referrals.service.ts.
pub mod Entries
pub mod Referrals
pub mod Balance
pub mod Release
pub mod Rewards
mod Tests
