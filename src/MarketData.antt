-- ===== src/MarketData.antt =====
-- services/market-data/src/core: which window of bars to fetch, and when to pull.
pub mod Incremental
pub mod Catchup
pub mod Service
pub mod Fallback
