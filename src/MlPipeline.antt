-- ===== src/MlPipeline.antt =====
-- services/ml-pipeline/src/core: the splits and the labels that the models are trained on.
pub mod Splits
pub mod Numpy
pub mod Labels
pub mod Gate
pub mod Cpcv
pub mod Outcomes
