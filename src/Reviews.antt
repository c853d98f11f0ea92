-- ===== src/Reviews.antt =====
-- Ratings after a rental: apps/api/src/modules/rentals/reviews.service.ts.
pub mod Blind
pub mod Published
mod Tests
