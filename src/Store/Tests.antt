-- ===== src/Store/Tests.antt =====
-- A small store, in which payloads of hexadecimal digits are padded to make their digests.
use xrp_inteliggence_x.Base.{
  List, pos, after_prefix, lstrip, is_space, collect, some, ◌≡◌, refl, true, false, [], ◌∷◌, ◌++◌,
  sort_by, lookup, insert, lex_at_most, list_order, nat_order, str, strip, is_sha256, ok, raise,
  aware, utc, runtime_error, value_error, key_error,
}
use xrp_inteliggence_x.Store.Model.{
  empty, ◌>>=◌, blob_path, write_blob, register_blob, put_raw, read_raw, insert_receipt,
  record_fetch, validate_receipt, constraint_fails, insert_observation, save_observation,
  upsert_checkpoint, save_checkpoint, load_checkpoint,
}
use xrp_inteliggence_x.Store.Partitions.{
  is_safe_segment, repeats, least, greatest, lines, partition_payload, save_all, partition_path,
  write_part, partition_of, add_members, register_members, register_partition, store_part,
  write_partition, persist_partition_then_checkpoint,
}
use xrp_inteliggence_x.Store.Manifests.{
  list_partitions, count_lines, total_rows, verify_partition, verify_all, manifest_path,
  write_manifest, register_manifest, manifest_of, publish, finalize_manifest,
}
use xrp_inteliggence_x.Contract.Observation.{
  HistoricalObservation, post_init, check_texts, text, sha, check_fetch_id, optional_utc,
  check_revision, check_values, check_availability,
}
use xrp_inteliggence_x.Store.Payload.{
  raw_from_payload, observation_from_payload, observation_payload, field, optional_field,
  read_precision,
}
use xrp_inteliggence_x.Store.Readers.{read_row, load_observations}
use xrp_inteliggence_x.Store.Loading.{IsLoaded, load_observations-IsLoaded}
use xrp_inteliggence_x.Store.CrashOrder.{
  IsOrdered, checkpoint_of, persist_partition_then_checkpoint-IsOrdered,
}
use xrp_inteliggence_x.Store.Extends.{Extends}
use xrp_inteliggence_x.Store.Durable.{IsDurable}
use xrp_inteliggence_x.Store.Sessions.{
  fetch, step, run, run-Extends, run-IsDurable, read_raw-put_raw,
}
use xrp_inteliggence_x.Store.Samples.{
  sha_fetch, arguments, number_text, read_number, same_text, loads, sha256, receipt_json,
  observation_json, canonical_sha256, manifest_json, payload, receipt, observation, session,
  corrupt, fetched, persisted,
}

program : Unit {0}
unfolding load_observations is_safe_segment repeats least greatest lines partition_payload save_all
    partition_path write_part partition_of add_members register_members register_partition
    store_part write_partition persist_partition_then_checkpoint sort_by list_partitions count_lines
    total_rows verify_partition verify_all manifest_path write_manifest register_manifest
    manifest_of publish finalize_manifest ◌>>=◌ blob_path write_blob register_blob put_raw read_raw
    insert_receipt record_fetch validate_receipt constraint_fails insert_observation
    save_observation upsert_checkpoint save_checkpoint load_checkpoint step run lookup insert
    lex_at_most strip is_sha256 utc
program = tt

-- The second checkpoint and the empty payload are refused.
ended :
    run sha256 receipt_json observation_json canonical_sha256 manifest_json session empty ≡ record {
      files = (blob_path (sha256 payload), payload) ∷ [];
      raw_blobs =
          (sha256 payload, record { byte_count = 3; relative_path = blob_path (sha256 payload) })
          ∷ [];
      fetch_receipts =
          (
            sha_fetch,
            record {
              payload_sha256 = sha256 payload;
              source_id = str "s";
              provider = str "p";
              fetched_at = 20;
              payload_json = str "/e";
            },
          )
          ∷ [];
      observations =
          (
            str "o1",
            record {
              columns = observation;
              canonical_sha256 = sha256 (str "o11");
              payload_json = str "1";
            },
          )
          ∷ [];
      partitions = [];
      partition_members = [];
      manifests = [];
      checkpoints =
          (str "job", record { cursor_json = str "{}"; completed = true; updated_at = 20 }) ∷ [];
    }
unfolding program
ended = refl

unregistered :
    (save_observation sha256 receipt_json observation_json canonical_sha256 observation empty).1
    ≡ raise (value_error "observation fetch_id is not registered")
unfolding program
unregistered = refl

corruption :
    put_raw sha256 payload corrupt
    ≡ (corrupt, raise (runtime_error "raw blob integrity collision or corruption"))
unfolding program
corruption = refl

missing : read_raw sha256 (sha256 payload) corrupt ≡ raise key_error
unfolding program
missing = refl

run-Extends_example :
    Extends empty
      (run sha256 receipt_json observation_json canonical_sha256 manifest_json session empty)
run-Extends_example =
    run-Extends sha256 receipt_json observation_json canonical_sha256 manifest_json session empty

run-IsDurable_example :
    IsDurable sha256
      (run sha256 receipt_json observation_json canonical_sha256 manifest_json session empty)
run-IsDurable_example =
    run-IsDurable sha256 receipt_json observation_json canonical_sha256 manifest_json session

empty_run-IsDurable : IsDurable sha256 empty
unfolding program
empty_run-IsDurable =
    run-IsDurable sha256 receipt_json observation_json canonical_sha256 manifest_json []

put_payload : put_raw sha256 payload empty ≡ (
  record empty {
    files = (blob_path (sha256 payload), payload) ∷ [];
    raw_blobs =
        (sha256 payload, record { byte_count = 3; relative_path = blob_path (sha256 payload) })
        ∷ [];
  },
  ok (record {
    payload_sha256 = sha256 payload;
    byte_count = 3;
    relative_path = blob_path (sha256 payload);
  }),
)
unfolding program
put_payload = refl

read_raw-put_raw_example :
    read_raw sha256 (sha256 payload) (
      run sha256 receipt_json observation_json canonical_sha256 manifest_json session
        (put_raw sha256 payload empty).0)
    ≡ ok payload
unfolding program
read_raw-put_raw_example =
    read_raw-put_raw sha256 receipt_json observation_json canonical_sha256 manifest_json payload
      empty session empty_run-IsDurable put_payload

-- The file of the partition holds one line.
persisted_file :
    lookup (str "normalized/d/day=1/part-" ++ sha256 (str "1\n") ++ str ".jsonl") persisted.files
    ≡ some (str "1\n")
unfolding program
persisted_file = refl

persisted_checkpoint :
    lookup (str "job") persisted.checkpoints ≡ some (checkpoint_of (str "{}") true (aware 20))
unfolding program
persisted_checkpoint = refl

-- Without the receipt nothing is advanced.
refused :
    persist_partition_then_checkpoint sha256 receipt_json observation_json canonical_sha256
      (str "d")
      (str "day=1")
      (observation ∷ [])
      (str "job")
      (str "{}")
      true
      (aware 20)
      empty
    ≡ (empty, raise (value_error "observation fetch_id is not registered"))
unfolding program
refused = refl

-- A segment of two dots passes as safe.
two_dots : is_safe_segment (str "..") ≡ true
unfolding program
two_dots = refl

unsafe : is_safe_segment (str "a/b") ≡ false
unfolding program
unsafe = refl

fetched-IsDurable : IsDurable sha256 fetched
unfolding program
fetched-IsDurable =
    run-IsDurable sha256 receipt_json observation_json canonical_sha256 manifest_json
      (fetch payload receipt ∷ [])

persist_partition_then_checkpoint-IsOrdered_example :
    IsOrdered sha256 (str "job") (checkpoint_of (str "{}") true (aware 20)) fetched (
      persist_partition_then_checkpoint sha256 receipt_json observation_json canonical_sha256
        (str "d")
        (str "day=1")
        (observation ∷ [])
        (str "job")
        (str "{}")
        true
        (aware 20)
        fetched)
persist_partition_then_checkpoint-IsOrdered_example =
    persist_partition_then_checkpoint-IsOrdered sha256 receipt_json observation_json
      canonical_sha256 (str "d") (str "day=1") (observation ∷ []) (str "job") (str "{}") true
      (aware 20) fetched fetched-IsDurable

saved : post_init arguments ≡ ok observation
unfolding post_init check_texts text sha check_fetch_id after_prefix optional_utc check_revision
    check_values check_availability strip lstrip is_space is_sha256 utc
saved = refl

loaded :
    load_observations loads
      (read_number aware)
      (read_number (λ n. n))
      (read_number pos)
      (str "d")
      persisted
    ≡ ok (observation ∷ [])
unfolding program read_row raw_from_payload observation_from_payload observation_payload field
    optional_field read_precision collect post_init check_texts text sha check_fetch_id after_prefix
    optional_utc check_revision check_values check_availability lstrip is_space
loaded = refl

load_observations-IsLoaded_example :
    (os : List HistoricalObservation) × (load_observations loads
        (read_number aware)
        (read_number (λ n. n))
        (read_number pos)
        (str "d")
        persisted
      ≡ ok os)
    × IsLoaded (str "d") persisted os
unfolding program
load_observations-IsLoaded_example =
    load_observations-IsLoaded number_text number_text number_text same_text (read_number aware)
      (read_number (λ n. n)) (read_number pos) loads (λ t. refl) (λ d. refl) (λ n. refl) (str "d")
      persisted refl (record { arguments = arguments; made = saved; reads = refl }, tt)
