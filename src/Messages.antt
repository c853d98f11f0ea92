-- ===== src/Messages.antt =====
-- Messages of a chat, and who has blocked whom: apps/api/src/modules/chat/messages.service.ts,
-- chat/conversations.service.ts, chat/chat-presenter.ts and safety/blocks.service.ts.
pub mod Blocks
pub mod Rows
pub mod Sending
pub mod Chats
pub mod Started
pub mod Retried
pub mod Masked
mod Tests
