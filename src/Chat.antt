-- ===== src/Chat.antt =====
-- internal/chat: the chat with a text model.
pub mod Defs
pub mod Shown
mod Examples
