-- ===== src/Strategy.antt =====
-- services/strategy/src/core.
pub mod Health
pub mod Events
pub mod Service
