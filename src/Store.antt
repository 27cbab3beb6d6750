-- ===== src/Store.antt =====
-- src/xrp_regime_engine/historical_store_v2.py: the raw blobs, receipts, observations and checkpoints
-- of the evidence store.
pub mod Model
pub mod Partitions
pub mod Extends
pub mod Growth
pub mod Manifests
pub mod Payload
pub mod RoundTrip
pub mod Readers
pub mod Loading
pub mod PartitionLaws
pub mod PartitionGrowth
pub mod Checkpoints
pub mod CrashOrder
pub mod ManifestLaws
pub mod ManifestGrowth
pub mod Sessions
pub mod Durable
pub mod Triples
mod Samples
mod Tests
