-- ===== src/WalkForward.antt =====
-- src/xrp_regime_engine/walk_forward_v1.py: labelled rows, the configuration of a walk-forward study,
-- and its folds.
pub mod Rows
pub mod Folds
pub mod Config
pub mod Plans
pub mod Leakage
pub mod Windows
pub mod Indexes
pub mod Join
mod Tests
