-- ===== src/Backfill.antt =====
-- src/xrp_regime_engine/historical_backfill_v2.py: the windows and the pages of a backfill.
pub mod Pages
pub mod Run
pub mod Returns
pub mod Saves
pub mod Resume
pub mod Reach
pub mod Complete
mod Samples
mod Tests
