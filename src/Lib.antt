-- ===== src/Lib.antt =====
-- Verification of the point-in-time core of the XRP regime engine, the Python package under
-- src/xrp_regime_engine. The engine collects market data, stores it with the provenance of every
-- fetch, selects what was knowable at a prediction time, keeps a local order book from an
-- exchange's depth stream, checks that its live streams are fresh together, and studies models by
-- walk-forward folds. The parts modelled here are those that decide what a prediction may know.
--
-- Base holds what the parts share: numbers and their tests, orders, sorting, association lists
-- for Python's dicts, texts as lists of code points, exceptions as values, comprehensions whose
-- body can raise, and instants. An instant is a number of microseconds since datetime.min in UTC;
-- a datetime is aware, with its instant, or naive.
--
-- Contract models src/xrp_regime_engine/historical_contract.py. Observation has
-- HistoricalObservation: RawObservation is what the constructor is given, post_init is
-- __post_init__, availability_boundary and eligibility_at are the methods of those names. Select
-- has select_as_of: group_from is the loop that builds the groups, best_of and select_group
-- choose the latest revision, select_at is the selection at an instant. The canonical text of an
-- observation, which decides whether two revisions agree, is a parameter that can raise; the
-- values' JSON text and all digests are parameters too.
--
-- Book models src/xrp_regime_engine/local_book.py and the levels and snapshots of
-- src/xrp_regime_engine/microstructure.py. A method returns the book as it stands, also after an
-- exception, and its outcome: apply_first_delta, apply_delta and apply write the levels before
-- they test for a crossed book, as the methods do. Prices and quantities are natural numbers on a
-- common scale, which the source has as floats: only their comparisons with each other and with
-- zero matter there.
--
-- WalkForward models src/xrp_regime_engine/walk_forward_v1.py: Rows has the labelled rows, the
-- configuration and join_labeled_rows, Folds has build_walk_forward_folds. The rows come from the
-- selected observations. The while loop has fuel, one more than there are rows; it is enough,
-- since each round advances by at least one row. The digest of a fold is a parameter. Of feature
-- rows and labels only the fields that this module reads are kept.
--
-- Horizon models src/xrp_regime_engine/research_horizon.py: Calendar has horizon_end_at and
-- _add_months, on the dates of datetime and calendar, in which a replace out of range raises and
-- a sum past the year 9999 overflows. A time of the day is in microseconds, and an aware time is
-- taken to UTC.
--
-- Streams models src/xrp_regime_engine/stream_alignment.py: Model has the freshness policy and
-- _check_stream, Assess has assess_cross_stream_alignment. The depth stream comes from the local
-- book. The list of flags that the calls share is passed from call to call. Ages and limits are
-- in microseconds, where the source has floating point seconds: the rounding of total_seconds,
-- which is exact to the microsecond for spans of less than 270 years, is not modelled.
--
-- Store models src/xrp_regime_engine/historical_store_v2.py: the files under its root and the
-- tables raw_blobs, fetch_receipts, observations, partitions, partition_members, manifests and
-- checkpoints of its SQLite catalog, with their primary keys, foreign keys and unique columns. In
-- Model, put_raw, read_raw, record_fetch, save_observation, save_checkpoint and load_checkpoint
-- are the methods of those names, and in Partitions write_partition and
-- persist_partition_then_checkpoint, in Manifests list_partitions, verify_partition and
-- finalize_manifest, in Payload _observation_payload and _observation_from_payload, in Readers
-- load_observations and as_of; a call that raises keeps the files it has written and, as the
-- connection rolls back, no row. SHA-256, the canonical JSON texts and their reading by
-- json.loads are parameters, and so are isoformat and fromisoformat of times and dates. Of an
-- observation that is saved the canonical text is taken to exist. A write of a file is atomic, as
-- os.replace makes it. Files are told apart by the text of their path, in which a segment `..` is
-- not resolved.
--
-- Backfill models src/xrp_regime_engine/historical_backfill_v2.py. Pages has the windows, the
-- pages and _validate_page, Run has BackfillRunnerV2.run over the store: fetch_next is the body
-- of its while loop, fetch_all the loop, finish what follows it. The adapter is a parameter,
-- whose answer to a cursor may change with the number of pages asked for. A cursor is its
-- canonical JSON text. The loop has fuel, one more than max_pages; it is enough, since each round
-- counts a page and the loop stops at max_pages.
--
-- Oos models src/xrp_regime_engine/oos_predictions_v1.py. Prediction has OOSPrediction.build on a
-- fold of the walk-forward study, Outcome has resolve_oos_outcome, Ledger has
-- OOSPredictionLedgerV1 with its three tables, their keys and unique columns; a method that
-- raises leaves the tables as they were. A float is not a number, infinite, or a multiple of 2 ^
-- -1074, as every finite double is. The hashed JSON texts are parameters, and so is json.loads,
-- which is asked to read back what was written.
--
-- Dataset models src/xrp_regime_engine/dataset_version_v1.py. Coverage has the coverage of the
-- providers and the detection of gaps, Content has the fields of DatasetVersion with their
-- checks, Version its constructor and build_dataset_version, on the manifests and the partitions
-- of the store and the observations of the contract. The fractions of eligible evidence are
-- exact, where the source has floats. The hashed JSON text is a parameter.
--
-- Alerts models src/xrp_regime_engine/alerts.py: Registry has AlertRegistry.evaluate, rule by
-- rule, on a snapshot of the live pipeline. The scores are in thousandths, the clock's reading is
-- an argument, and the digest that makes an alert's identifier is a parameter.
--
-- Not modelled: the temporal windows, the construction of features and labels, the regime state,
-- the live pipeline with its floating point scores, the provider clients, the API and the command
-- line. In the availability date of an observation the day after 9999-12-31, on which Python's
-- date overflows, is not told apart.
pub mod Base
pub mod Contract
pub mod Book
pub mod WalkForward
pub mod Streams
pub mod Store
pub mod Alerts
pub mod Backfill
pub mod Oos
pub mod Dataset
pub mod Horizon
