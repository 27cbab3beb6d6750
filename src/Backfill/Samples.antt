-- ===== src/Backfill/Samples.antt =====
-- The pages, the adapter and the runs of the tests.
use xrp_inteliggence_x.Base.{
  ℕ, Bool, true, false, Option, none, some, [], ◌∷◌, ◌++◌, take, ◌==◌, same, if◌then◌else◌, lookup,
  list_order, nat_order, Str, str, Result, ok, raise,
}
use xrp_inteliggence_x.Contract.Observation.{HistoricalObservation, AvailabilityPrecision}
use xrp_inteliggence_x.Store.Model.{FetchReceipt, CheckpointRow, Store, empty}
use xrp_inteliggence_x.Store.Manifests.{ManifestPayload}
use xrp_inteliggence_x.Backfill.Pages.{BackfillWindow, BackfillPage}
use xrp_inteliggence_x.Backfill.Run.{
  Adapter, BackfillRunner, RunResult, Progress, begin_at, advance, Run, out_of_fuel, ended,
  fetch_next, run,
}

abbrev pub receipt : FetchReceipt
receipt = record {
  fetch_id = str "f";
  source_id = str "s";
  provider = str "p";
  canonical_uri = str "https://e";
  endpoint = str "/e";
  request_fingerprint = str "1";
  fetched_at = 20;
  payload_sha256 = str "abc";
  ingestion_version = str "1";
  parser_version = str "1";
}

abbrev pub observation : HistoricalObservation
observation = record {
  observation_id = str "o1";
  dataset = str "d";
  record_id = str "r";
  provider = str "p";
  source_id = str "s";
  symbol = str "XRP";
  instrument = str "spot";
  observed_at = 5;
  fetched_at = 20;
  fetch_id = str "f";
  payload_sha256 = str "abc";
  values = str "1";
  availability_precision = AvailabilityPrecision.unknown;
  availability_policy = str "published";
  available_at = none;
  available_date = none;
  revision_sequence = none;
  reconstruction_basis_id = none;
}

abbrev pub page : BackfillPage
page = record {
  raw_payload = str "abc";
  receipt = receipt;
  observations = observation ∷ [];
  partition_key = some (str "day=1");
  next_cursor = none;
  completed = true;
}

-- A backfill of two pages, of which the second is empty, with the digests padded payloads.
abbrev pub digest : Str → Str
digest payload =
    take 64 (payload ++ str "0000000000000000000000000000000000000000000000000000000000000000")

abbrev pub receipt_json : FetchReceipt → Str
receipt_json r = r.endpoint

abbrev pub observation_json : HistoricalObservation → Str
observation_json o = o.values

abbrev pub canonical_digest : HistoricalObservation → Str
canonical_digest o = digest (o.observation_id ++ o.values)

abbrev pub manifest_json : ManifestPayload → Str
manifest_json p = p.dataset ++ p.schema_version

abbrev pub material_json : Str → Str → Str → BackfillWindow → Str
material_json provider dataset version w = provider ++ dataset ++ version

abbrev pub hour : BackfillWindow
hour = record { start = 0; end = 100; interval_seconds = 60 }

abbrev pub first_page : BackfillPage
first_page = record {
  raw_payload = str "abc";
  receipt = record receipt { payload_sha256 = digest (str "abc") };
  observations = record observation { payload_sha256 = digest (str "abc") } ∷ [];
  partition_key = some (str "day1");
  next_cursor = some (str "{1}");
  completed = false;
}

abbrev pub last_page : BackfillPage
last_page = record {
  raw_payload = str "def";
  receipt = record receipt {
    fetch_id = str "g";
    fetched_at = 30;
    payload_sha256 = digest (str "def");
  };
  observations = [];
  partition_key = none;
  next_cursor = none;
  completed = true;
}

abbrev pub answer : Str → Result BackfillPage
answer cursor = if same cursor (str "{0}") then ok first_page else ok last_page

abbrev pub adapter : Adapter
adapter = record {
  provider = str "p";
  dataset = str "d";
  schema_version = str "1";
  initial_cursor = λ w. ok (str "{0}");
  fetch_page = λ w n cursor. answer cursor;
}

abbrev pub runner : BackfillRunner
runner = record { max_pages = 5; max_empty_pages = 1 }

abbrev pub key : Str
key = str "backfill:sha256:" ++ digest (str "pd1")

abbrev pub outcome : Run RunResult → Option (ℕ × Bool × Bool × Option CheckpointRow)
outcome out_of_fuel = none
outcome (ended s (raise e)) = none
outcome (ended s (ok r)) =
    some (r.pages_fetched, r.observations_seen == 1, r.resumed, lookup key s.checkpoints)

abbrev pub first_run : Run RunResult
first_run =
    run digest receipt_json observation_json canonical_digest manifest_json material_json runner
      adapter hour empty

-- A run that is bounded by one page stops after it, and the next run goes on at the second page.
abbrev pub store_of : {A : Type 0} → Run A → Store
store_of out_of_fuel = empty
store_of (ended s r) = s

abbrev pub short_run : Run RunResult
short_run =
    run digest receipt_json observation_json canonical_digest manifest_json material_json
      (record runner { max_pages = 1 }) adapter hour empty

-- After the first page.
abbrev pub second : Progress
second = advance (begin_at (str "{0}")) first_page (str "{1}")

abbrev pub after_first : Store
after_first =
    (fetch_next digest receipt_json observation_json canonical_digest manifest_json material_json
      runner adapter hour (begin_at (str "{0}")) empty).0
