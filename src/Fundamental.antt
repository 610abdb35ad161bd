-- ===== src/Fundamental.antt =====
-- services/fundamental-data/src/core: the Piotroski score of a company's statements.
pub mod Piotroski
