-- ===== src/Contract.antt =====
-- src/xrp_regime_engine/historical_contract.py: observations with their availability, eligibility at
-- a prediction time, and the selection of one revision for each series.
pub mod Observation
pub mod Select
pub mod Eligibility
pub mod Grouping
pub mod Ranking
pub mod Selection
pub mod PointInTime
mod Tests
