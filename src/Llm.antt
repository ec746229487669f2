-- ===== src/Llm.antt =====
-- internal/platform/llm: text models. internal/platform/systemone has the same router.
pub mod Router
pub mod Fake
pub mod Lines
pub mod Anthropic
pub mod ChatCompletions
mod Examples
