-- ===== src/Alerts.antt =====
-- src/xrp_regime_engine/alerts.py: which alerts are sent, and how far apart.
pub mod Registry
pub mod Cooldown
mod Tests
