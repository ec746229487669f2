-- ===== src/Llm/Anthropic.antt =====
-- internal/platform/llm/anthropic/anthropic.go: the Messages API.
pub mod Defs
pub mod Wire
pub mod Answer
mod Examples
