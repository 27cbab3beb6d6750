-- ===== src/Horizon.antt =====
-- src/xrp_regime_engine/research_horizon.py: when the horizon of a prediction ends.
pub mod Calendar
pub mod Ends
pub mod Months
pub mod Elapsed
mod Tests
