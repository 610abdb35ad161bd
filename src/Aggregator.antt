-- ===== src/Aggregator.antt =====
-- services/signal-aggregator/src/core.
pub mod Vote
pub mod Weights
pub mod Service
pub mod Window
