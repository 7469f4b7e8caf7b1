-- ===== src/Ai.antt =====
-- trade_post/ai: the client of the language model, and the decisions made with it.
mod Tests
pub mod Breaker
pub mod Chat
pub mod Connection
pub mod Extract
pub mod Schema
pub mod Baseline
pub mod Brain
