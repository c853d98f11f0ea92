-- ===== src/Chat.antt =====
-- Offers in a chat: apps/api/src/modules/chat.
pub mod Offers
pub mod Open
pub mod Deals
mod Tests
