-- ===== src/Execution.antt =====
-- services/execution/src/core.
pub mod Book
pub mod Broker
pub mod Reports
pub mod Service
