-- ===== src/Sessions.antt =====
-- Device sessions and their rotating refresh tokens: apps/api/src/modules/sessions/sessions.service.ts.
pub mod Tokens
pub mod Reuse
mod Tests
