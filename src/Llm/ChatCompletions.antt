-- ===== src/Llm/ChatCompletions.antt =====
-- internal/platform/llm/chatcompletions/chatcompletions.go: the Chat Completions API.
pub mod Defs
pub mod Chunks
pub mod Parts
mod Examples
