-- ===== src/Oos.antt =====
-- src/xrp_regime_engine/oos_predictions_v1.py: predictions outside the training sample, their
-- outcomes and the ledger of both.
pub mod Prediction
pub mod Outcome
pub mod Ledger
pub mod Sound
pub mod Sessions
pub mod Pairs
pub mod OutOfSample
pub mod Resolution
mod Samples
mod Tests
