-- ===== src/MacroData.antt =====
-- services/macro-data/src/core: the macro regime from its indicators.
pub mod Regime
