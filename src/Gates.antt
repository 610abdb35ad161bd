-- ===== src/Gates.antt =====
-- shared/trading-common/src/trading_common: the gates that a signal passes before it is published.
pub mod Cost
pub mod Envelope
pub mod Approval
