-- ===== src/Listings.antt =====
-- Listings of items: apps/api/src/modules/listings.
pub mod Rows
pub mod Contents
pub mod Lender
pub mod Review
pub mod Sound
pub mod Moves
pub mod Reviewed
pub mod Photos
mod Tests
