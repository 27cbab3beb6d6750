-- ===== src/Store/Samples.antt =====
-- The observations and the stores of the tests.
use xrp_inteliggence_x.Base.{
  Option, some, ℕ, Result, ok, raise, value_error, true, false, none, List, [], ◌∷◌, ◌++◌, take,
  list_order, nat_order, Str, str, aware,
}
use xrp_inteliggence_x.Contract.Observation.{
  RawObservation, HistoricalObservation, AvailabilityPrecision,
}
use xrp_inteliggence_x.Store.Payload.{Payload, observation_payload}
use xrp_inteliggence_x.Store.Model.{FetchReceipt, Store, empty, blob_path, record_fetch}
use xrp_inteliggence_x.Store.Partitions.{persist_partition_then_checkpoint}
use xrp_inteliggence_x.Store.Manifests.{ManifestPayload, DurableManifest, finalize_manifest}
use xrp_inteliggence_x.Store.Sessions.{Operation, put, fetch, observe, checkpoint}

abbrev pub sha256 : Str → Str
sha256 payload =
    take 64 (payload ++ str "0000000000000000000000000000000000000000000000000000000000000000")

abbrev pub receipt_json : FetchReceipt → Str
receipt_json r = r.endpoint

abbrev pub observation_json : HistoricalObservation → Str
observation_json o = o.values

abbrev pub canonical_sha256 : HistoricalObservation → Str
canonical_sha256 o = sha256 (o.observation_id ++ o.values)

abbrev pub manifest_json : ManifestPayload → Str
manifest_json p = p.dataset ++ p.schema_version

abbrev pub payload : Str
payload = str "abc"

abbrev pub sha_fetch : Str
sha_fetch = str "fetch:sha256:" ++ sha256 payload

abbrev pub receipt : FetchReceipt
receipt = record {
  fetch_id = sha_fetch;
  source_id = str "s";
  provider = str "p";
  canonical_uri = str "https://e";
  endpoint = str "/e";
  request_fingerprint = sha256 (str "1");
  fetched_at = 20;
  payload_sha256 = sha256 payload;
  ingestion_version = str "1";
  parser_version = str "1";
}

abbrev pub observation : HistoricalObservation
observation = record {
  observation_id = str "o1";
  dataset = str "d";
  record_id = str "r";
  provider = str "p";
  source_id = str "s";
  symbol = str "XRP";
  instrument = str "spot";
  observed_at = 5;
  fetched_at = 20;
  fetch_id = sha_fetch;
  payload_sha256 = sha256 payload;
  values = str "1";
  availability_precision = AvailabilityPrecision.unknown;
  availability_policy = str "published";
  available_at = none;
  available_date = none;
  revision_sequence = none;
  reconstruction_basis_id = none;
}

abbrev pub arguments : RawObservation
arguments = record {
  observation_id = str "o1";
  dataset = str "d";
  record_id = str "r";
  provider = str "p";
  source_id = str "s";
  symbol = str "XRP";
  instrument = str "spot";
  observed_at = aware 5;
  fetched_at = aware 20;
  fetch_id = sha_fetch;
  payload_sha256 = sha256 payload;
  values = some (str "1");
  availability_precision = AvailabilityPrecision.unknown;
  availability_policy = str "published";
  available_at = none;
  available_date = none;
  revision_sequence = none;
  reconstruction_basis_id = none;
}

-- A number as a text of one sign, and back.
abbrev pub number_text : ℕ → Str
number_text n = n ∷ []

abbrev pub read_number : {A : Type 0} → (ℕ → A) → Str → Result A
read_number f [] = raise (value_error "number")
read_number f (n ∷ rest) = ok (f n)

abbrev pub same_text : Str → Str
same_text s = s

abbrev pub saved_payload : Payload
saved_payload = observation_payload number_text number_text number_text same_text observation

abbrev pub loads : Str → Result (Option Payload)
loads s = ok (some saved_payload)

abbrev pub session : List Operation
session =
    fetch payload receipt
    ∷ observe observation
    ∷ checkpoint (str "job") (str "{}") true (aware 20)
    ∷ checkpoint (str "job") (str "{1}") false (aware 30)
    ∷ put (str "")
    ∷ []

abbrev pub corrupt : Store
corrupt = record empty { files = (blob_path (sha256 payload), str "abd") ∷ [] }

abbrev pub fetched : Store
fetched =
    (record_fetch sha256 receipt_json observation_json canonical_sha256 payload receipt empty).0

abbrev pub persisted : Store
persisted =
    (persist_partition_then_checkpoint sha256 receipt_json observation_json canonical_sha256
      (str "d") (str "day=1") (observation ∷ []) (str "job") (str "{}") true (aware 20) fetched).0

abbrev pub manifest : DurableManifest
manifest = record {
  manifest_id = str "manifest:sha256:" ++ sha256 (str "dv1\n");
  manifest_sha256 = sha256 (str "dv1\n");
  dataset = str "d";
  schema_version = str "v1";
  created_at = 30;
  partition_ids = (str "partition:sha256:" ++ sha256 (str "1\n")) ∷ [];
  total_rows = 1;
  relative_path = str "manifests/d/v1/" ++ sha256 (str "dv1\n") ++ str ".json";
}

abbrev pub final : Store
final = (finalize_manifest sha256 manifest_json (str "d") (str "v1") (aware 30) persisted).0
