-- ===== src/Backtest.antt =====
-- services/backtest/src/core: the positions that a rule takes bar by bar, and the recommendation
-- that a revalidation makes of them.
pub mod Positions
pub mod Revalidation
mod Tests
