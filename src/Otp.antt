-- ===== src/Otp.antt =====
-- One-time passwords: apps/api/src/modules/otp/otp.service.ts.
pub mod Challenges
pub mod Guessing
pub mod Issuing
mod Tests
