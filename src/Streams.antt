-- ===== src/Streams.antt =====
-- src/xrp_regime_engine/stream_alignment.py: whether depth, trades, open interest and funding are
-- known and fresh at one prediction time.
pub mod Model
pub mod Assess
pub mod Marking
pub mod Freshness
pub mod Skew
pub mod Alignment
pub mod Totality
mod Tests
