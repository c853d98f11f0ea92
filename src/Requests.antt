-- ===== src/Requests.antt =====
-- The requests board: apps/api/src/modules/requests.
pub mod Board
pub mod Limits
pub mod Reached
pub mod Shown
mod Tests
