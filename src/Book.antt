-- ===== src/Book.antt =====
-- src/xrp_regime_engine/local_book.py: the local order book that follows a stream of depth deltas,
-- with `BookLevel` and `OrderBookSnapshot` of microstructure.py.
pub mod Model
pub mod Levels
pub mod Consistency
pub mod Sequence
pub mod Top
mod Tests
