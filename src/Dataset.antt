-- ===== src/Dataset.antt =====
-- src/xrp_regime_engine/dataset_version_v1.py: the coverage of a dataset by its providers, its gaps,
-- and the version that pins its manifests, partitions and observations.
pub mod Coverage
pub mod Gaps
pub mod Providers
pub mod Spans
pub mod Detection
pub mod Content
pub mod Version
pub mod Members
pub mod Pinned
mod Tests
