-- ===== src/Rentals.antt =====
-- Handover, return and disputes: apps/api/src/modules/rentals.
pub mod Handover
pub mod Disputes
pub mod Within
pub mod Kept
pub mod Lockout
pub mod Proof
mod Tests
