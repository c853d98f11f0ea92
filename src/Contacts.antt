-- ===== src/Contacts.antt =====
-- Phone numbers in chat messages: apps/api/src/modules/chat/masking.ts.
pub mod Masking
pub mod Grouped
pub mod Hidden
mod Tests
