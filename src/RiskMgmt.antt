-- ===== src/RiskMgmt.antt =====
-- services/risk-mgmt/src/core.
pub mod Breaker
pub mod Ledger
pub mod Portfolio
pub mod Regime
pub mod Sizing
pub mod Events
pub mod Service
mod BreakerTests
