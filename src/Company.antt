-- ===== src/Company.antt =====
-- services/company-classifier/src/core: the style of a company and the models routed to it.
pub mod Classifier
