-- ===== src/Store/Model.antt =====
-- The store as the files under its root and the rows of its SQLite tables, and its methods. A method
-- that raises keeps the files it has written and, since SQLite rolls back, none of the rows.
use xrp_inteliggence_x.Base.{
  ℕ, List, Bool, true, false, not, ◌&&◌, ◌||◌, Option, none, some, [], ◌++◌, ◌==◌, if◌then◌else◌,
  length, take, drop, is_nil, exists, same, list_order, nat_order, Dict, lookup, insert, values,
  Str, str, strip, is_sha256, Error, Result, ok, raise, value_error, runtime_error, integrity_error,
  key_error, file_not_found, DateTime, utc, is_some,
}
use xrp_inteliggence_x.Contract.Observation.{HistoricalObservation}

-- Rows of `raw_blobs`, by `payload_sha256`.
pub record BlobRow : Type 0 where
  pub byte_count : ℕ
  pub relative_path : Str

pub record FetchReceipt : Type 0 where
  pub fetch_id : Str
  pub source_id : Str
  pub provider : Str
  pub canonical_uri : Str
  pub endpoint : Str
  pub request_fingerprint : Str
  pub fetched_at : ℕ
  pub payload_sha256 : Str
  pub ingestion_version : Str
  pub parser_version : Str

-- Rows of `fetch_receipts`, by `fetch_id`.
pub record ReceiptRow : Type 0 where
  pub payload_sha256 : Str
  pub source_id : Str
  pub provider : Str
  pub fetched_at : ℕ
  pub payload_json : Str

-- Rows of `observations`, by `observation_id`. The observation stands for its own columns.
pub record ObservationRow : Type 0 where
  pub columns : HistoricalObservation
  pub canonical_sha256 : Str
  pub payload_json : Str

-- Rows of `checkpoints`, by `job_key`.
pub record CheckpointRow : Type 0 where
  pub cursor_json : Str
  pub completed : Bool
  pub updated_at : ℕ

-- Rows of `partitions`, by `partition_id`.
pub record DurablePartition : Type 0 where
  pub partition_id : Str
  pub dataset : Str
  pub partition_key : Str
  pub relative_path : Str
  pub file_sha256 : Str
  pub row_count : ℕ
  pub minimum_observed_at : ℕ
  pub maximum_observed_at : ℕ
  pub minimum_fetched_at : ℕ
  pub maximum_fetched_at : ℕ

-- A row of `partition_members`.
pub record Member : Type 0 where
  pub partition_id : Str
  pub observation_id : Str

-- Rows of `manifests`, by `manifest_id`.
pub record ManifestRow : Type 0 where
  pub dataset : Str
  pub schema_version : Str
  pub created_at : ℕ
  pub manifest_sha256 : Str
  pub total_rows : ℕ
  pub relative_path : Str
  pub payload_json : Str

pub record Store : Type 0 where
  pub files : Dict Str Str
  pub raw_blobs : Dict Str BlobRow
  pub fetch_receipts : Dict Str ReceiptRow
  pub observations : Dict Str ObservationRow
  pub partitions : Dict Str DurablePartition
  pub partition_members : List Member
  pub manifests : Dict Str ManifestRow
  pub checkpoints : Dict Str CheckpointRow

abbrev pub empty : Store
empty = record {
  files = [];
  raw_blobs = [];
  fetch_receipts = [];
  observations = [];
  partitions = [];
  partition_members = [];
  manifests = [];
  checkpoints = [];
}

pub record RawBlob : Type 0 where
  pub payload_sha256 : Str
  pub byte_count : ℕ
  pub relative_path : Str

-- A method's call: the store after it, and what it returns or raises.
abbrev pub Action : Type 0 → Type 0
Action A = Store → Store × Result A

abbrev pub continue : {A B : Type 0} → Store × Result A → (A → Action B) → Store × Result B
continue (s, raise e) next = (s, raise e)
continue (s, ok a) next = next a s

infixl 5 ◌>>=◌
unfoldable pub ◌>>=◌ : {A B : Type 0} → Action A → (A → Action B) → Action B
(call >>= next) s = continue (call s) next

infixl 5 ◌>>◌
abbrev pub ◌>>◌ : {B : Type 0} → Action (Unit {0}) → Action B → Action B
call >> next = call >>= λ u. next

abbrev pub return : {A : Type 0} → A → Action A
return a s = (s, ok a)

-- A check that leaves the store alone.
abbrev pub require : {A : Type 0} → Result A → Action A
require r s = (s, r)

abbrev pub fail_if : Bool → Error → Action (Unit {0})
fail_if true e s = (s, raise e)
fail_if false e s = (s, ok tt)

-- `_blob_path` below the root
unfoldable pub blob_path : Str → Str
blob_path digest =
    str "raw/sha256/"
    ++ take 2 digest
    ++ str "/"
    ++ take 2 (drop 2 digest)
    ++ str "/"
    ++ digest
    ++ str ".blob"

module _ (sha256 : Str → Str) where
  -- The file part of `put_raw`: an existing file is compared, and never written again.
  unfoldable pub write_blob : Str → Str → Str → Action (Unit {0})
  write_blob path digest payload s = elim (lookup path s.files) [
    | some existing ↦
        fail_if (not (same (sha256 existing) digest) || not (same existing payload))
          (runtime_error "raw blob integrity collision or corruption") s
    | none ↦ (record s { files = insert path payload s.files }, ok tt)
  ]

  -- The registry part of `put_raw`.
  unfoldable pub register_blob : Str → Str → ℕ → Action (Unit {0})
  register_blob path digest count s = elim (lookup digest s.raw_blobs) [
    | some row ↦
        fail_if (not (row.byte_count == count) || not (same row.relative_path path))
          (runtime_error "raw blob registry collision") s
    | none ↦
        if exists (λ r. same r.relative_path path) (values s.raw_blobs)
        then (s, raise (integrity_error "raw_blobs.relative_path"))
        else (
          record s {
            raw_blobs =
                insert digest (record { byte_count = count; relative_path = path }) s.raw_blobs;
          },
          ok tt,
        )
  ]

  unfoldable pub put_raw : Str → Action RawBlob
  put_raw payload = do
    fail_if (is_nil payload) (value_error "raw payload cannot be empty")
    fail_if (not (is_sha256 (sha256 payload))) (value_error "payload_sha256")
    write_blob (blob_path (sha256 payload)) (sha256 payload) payload
    register_blob (blob_path (sha256 payload)) (sha256 payload) (length payload)
    return (record {
      payload_sha256 = sha256 payload;
      byte_count = length payload;
      relative_path = blob_path (sha256 payload);
    })

  abbrev pub read_file : Str → Dict Str Str → Result Str
  read_file path files = elim (lookup path files) [ none ↦ raise file_not_found | some b ↦ ok b ]

  abbrev pub check_blob : Str → BlobRow → Result Str → Result Str
  check_blob digest row (raise e) = raise e
  check_blob digest row (ok payload) =
      if not (length payload == row.byte_count) || not (same (sha256 payload) digest)
      then raise (runtime_error "raw blob integrity check failed")
      else ok payload

  -- `read_raw`, which changes nothing.
  unfoldable pub read_raw : Str → Store → Result Str
  read_raw digest s =
      if is_sha256 digest
      then elim (lookup digest s.raw_blobs) [
        | none ↦ raise key_error
        | some row ↦ check_blob digest row (read_file row.relative_path s.files)
      ]
      else raise (value_error "payload_sha256")

  -- `receipt_json` and `observation_json` are the canonical JSON texts.
  module _ (receipt_json : FetchReceipt → Str) (observation_json : HistoricalObservation → Str)
      (canonical_sha256 : HistoricalObservation → Str) where
    -- The `INSERT` into `fetch_receipts`, with its foreign key.
    unfoldable pub insert_receipt : FetchReceipt → Action (Unit {0})
    insert_receipt r s = elim (lookup r.fetch_id s.fetch_receipts) [
      | some row ↦
          fail_if (not (same row.payload_json (receipt_json r)))
            (value_error "fetch_id collision with different receipt payload") s
      | none ↦
          if is_some (lookup r.payload_sha256 s.raw_blobs)
          then (
            record s {
              fetch_receipts =
                  insert r.fetch_id
                    (record {
                      payload_sha256 = r.payload_sha256;
                      source_id = r.source_id;
                      provider = r.provider;
                      fetched_at = r.fetched_at;
                      payload_json = receipt_json r;
                    })
                    s.fetch_receipts;
            },
            ok tt,
          )
          else (s, raise (integrity_error "FOREIGN KEY"))
    ]

    unfoldable pub record_fetch : Str → FetchReceipt → Action RawBlob
    record_fetch payload r = do
      fail_if (not (same (sha256 payload) r.payload_sha256))
          (value_error "fetch receipt payload_sha256 does not match raw bytes")
      blob ← put_raw payload
      insert_receipt r
      return blob

    abbrev pub matches : HistoricalObservation → ReceiptRow → Bool
    matches o r =
        same r.payload_sha256 o.payload_sha256
        && same r.source_id o.source_id
        && same r.provider o.provider
        && (r.fetched_at == o.fetched_at)

    -- `_validate_observation_receipt`
    unfoldable pub validate_receipt : HistoricalObservation → Action (Unit {0})
    validate_receipt o s = elim (lookup o.fetch_id s.fetch_receipts) [
      | none ↦ (s, raise (value_error "observation fetch_id is not registered"))
      | some row ↦
          fail_if (not (matches o row))
            (value_error "observation provenance does not match fetch receipt") s
    ]

    -- The constraints of the `observations` table: its foreign keys and its unique digest.
    unfoldable pub constraint_fails : HistoricalObservation → Store → Bool
    constraint_fails o s =
        not (is_some (lookup o.fetch_id s.fetch_receipts))
        || not (is_some (lookup o.payload_sha256 s.raw_blobs))
        || exists (λ r. same r.canonical_sha256 (canonical_sha256 o)) (values s.observations)

    unfoldable pub insert_observation : HistoricalObservation → Action (Unit {0})
    insert_observation o s = elim (lookup o.observation_id s.observations) [
      | some row ↦
          fail_if
            (not (same row.canonical_sha256 (canonical_sha256 o))
              || not (same row.payload_json (observation_json o)))
            (value_error "observation_id collision with different payload") s
      | none ↦ if constraint_fails o s then (s, raise (integrity_error "observations")) else (
        record s {
          observations =
              insert o.observation_id
                (record {
                  columns = o;
                  canonical_sha256 = canonical_sha256 o;
                  payload_json = observation_json o;
                })
                s.observations;
        },
        ok tt,
      )
    ]

    unfoldable pub save_observation : HistoricalObservation → Action (Unit {0})
    save_observation o = do validate_receipt o; insert_observation o

-- The upsert of `save_checkpoint`.
unfoldable pub upsert_checkpoint : Str → CheckpointRow → Action (Unit {0})
upsert_checkpoint job row s = elim (lookup job s.checkpoints) [
  | some old ↦
      if old.completed && not row.completed
      then (s, raise (value_error "completed checkpoint cannot be reopened"))
      else (record s { checkpoints = insert job row s.checkpoints }, ok tt)
  | none ↦ (record s { checkpoints = insert job row s.checkpoints }, ok tt)
]

-- `save_checkpoint`, given the cursor as JSON text.
unfoldable pub save_checkpoint : Str → Str → Bool → DateTime → Action (Unit {0})
save_checkpoint job cursor_json completed updated_at = do
  fail_if (is_nil (strip job)) (value_error "job_key is required")
  updated ← require (utc updated_at "updated_at")
  upsert_checkpoint job
      (record { cursor_json = cursor_json; completed = completed; updated_at = updated })

unfoldable pub load_checkpoint : Str → Store → Option CheckpointRow
load_checkpoint job s = lookup job s.checkpoints
