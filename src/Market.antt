-- ===== src/Market.antt =====
-- trade_post/market: the technical indicators.
mod Tests
pub mod Features
pub mod Indicators
pub mod Service
