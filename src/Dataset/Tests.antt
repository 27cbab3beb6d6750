-- ===== src/Dataset/Tests.antt =====
-- A dataset of three observations with a gap.
use xrp_inteliggence_x.Base.{
  ℕ, ◌+◌, ◌<◌, ◌≤◌, ◌≡◌, ◌⊎◌, refl, false, none, some, [], ◌∷◌, ◌++◌, take, Memᴰ, All, elements,
  group_by, append_under, lex_at_most, list_order, nat_order, sort_by, lookup, insert, Str, str,
  strip, is_sha256, after_prefix, Result, ok, raise, collect, value_error, pos, utc, aware, arith,
}
use xrp_inteliggence_x.Contract.Observation.{
  HistoricalObservation, AvailabilityPrecision, eligibility, classify, text,
}
use xrp_inteliggence_x.Store.Model.{DurablePartition}
use xrp_inteliggence_x.Store.Partitions.{repeats, least, greatest}
use xrp_inteliggence_x.Store.Manifests.{DurableManifest, total_rows}
use xrp_inteliggence_x.Dataset.Coverage.{
  provider_coverage, DatasetGap, dataset_gap, Rows, by_provider, coverage_of, provider_coverages,
  times_of, gaps_between, gaps_of, detect_gaps,
}
use xrp_inteliggence_x.Dataset.Detection.{detect_gaps-covers, IsTrueGap, detect_gaps-IsTrueGap}
use xrp_inteliggence_x.Dataset.Content.{
  DatasetContent, DatasetVersion, content_id, content_ids, check_lists,
}
use xrp_inteliggence_x.Dataset.Version.{
  dataset_version, partition_by_id, manifest_rows, check_manifest, check_manifests, referenced,
  count_of, check_evidence, content_of, build_dataset_version,
}
use xrp_inteliggence_x.Dataset.Pinned.{IsPinned, build_dataset_version-IsPinned}

program : Unit {0}
unfolding elements group_by append_under lex_at_most sort_by lookup insert strip is_sha256
    after_prefix collect utc eligibility classify text repeats least greatest total_rows
    provider_coverage dataset_gap by_provider coverage_of provider_coverages times_of gaps_between
    gaps_of detect_gaps content_id content_ids check_lists dataset_version partition_by_id
    manifest_rows check_manifest check_manifests referenced count_of check_evidence content_of
    build_dataset_version
program = tt

abbrev observation : Str → ℕ → HistoricalObservation
observation id t = record {
  observation_id = id;
  dataset = str "d";
  record_id = id;
  provider = str "p";
  source_id = str "s";
  symbol = str "XRP";
  instrument = str "spot";
  observed_at = t;
  fetched_at = t + 1;
  fetch_id = str "f";
  payload_sha256 = str "abc";
  values = str "1";
  availability_precision = AvailabilityPrecision.exact;
  availability_policy = str "published";
  available_at = some (t + 1);
  available_date = none;
  revision_sequence = none;
  reconstruction_basis_id = none;
}

abbrev rows : Rows
rows =
    observation (str "o3") 9000000
    ∷ observation (str "o1") 1000000
    ∷ observation (str "o2") 3000000
    ∷ []

abbrev gap : DatasetGap
gap = record {
  provider = str "p";
  starts_at = 5000000;
  ends_at = 9000000;
  expected_interval_seconds = 2;
}

detected : detect_gaps (some (pos 2000000)) rows ≡ ok (gap ∷ [])
unfolding program
detected = refl

half_second :
    detect_gaps (some (pos 500000)) rows
    ≡ raise (value_error "expected_interval must resolve to whole positive seconds")
unfolding program
half_second = refl

abbrev sha256 : Str → Str
sha256 payload =
    take 64 (payload ++ str "0000000000000000000000000000000000000000000000000000000000000000")

abbrev partition : DurablePartition
partition = record {
  partition_id = str "partition:sha256:" ++ sha256 (str "1");
  dataset = str "d";
  partition_key = str "day1";
  relative_path = str "p1";
  file_sha256 = sha256 (str "2");
  row_count = 3;
  minimum_observed_at = 1000000;
  maximum_observed_at = 9000000;
  minimum_fetched_at = 1000001;
  maximum_fetched_at = 9000001;
}

abbrev manifest : DurableManifest
manifest = record {
  manifest_id = str "manifest:sha256:" ++ sha256 (str "3");
  manifest_sha256 = sha256 (str "3");
  dataset = str "d";
  schema_version = str "1";
  created_at = 9000001;
  partition_ids = partition.partition_id ∷ [];
  total_rows = 3;
  relative_path = str "m1";
}

abbrev content_json : DatasetContent → Str
content_json c = c.dataset_key

abbrev build : ℕ → Result DatasetVersion
build cutoff =
    build_dataset_version sha256 content_json (str " d ") (str "1") (manifest ∷ []) (partition ∷ [])
      rows (str "f1") (str "l1") (aware 20000000) (aware cutoff) (some (pos 2000000)) false

abbrev version : DatasetVersion
version = record {
  dataset_version_id = str "dataset-version:sha256:" ++ sha256 (str "d");
  dataset_sha256 = sha256 (str "d");
  content = record {
    dataset_key = str "d";
    schema_version = str "1";
    source_manifest_ids = manifest.manifest_id ∷ [];
    source_manifest_hashes = manifest.manifest_sha256 ∷ [];
    partition_ids = partition.partition_id ∷ [];
    partition_hashes = partition.file_sha256 ∷ [];
    feature_schema_version = str "f1";
    label_schema_version = str "l1";
    created_at = 20000000;
    cutoff_at = 10000000;
    total_rows = 3;
    strict_replay_fraction = record { numerator = 3; denominator = 3 };
    reconstructed_pit_fraction = record { numerator = 0; denominator = 3 };
    coverage =
        record {
          provider = str "p";
          observation_count = 3;
          minimum_observed_at = 1000000;
          maximum_observed_at = 9000000;
          minimum_fetched_at = 1000001;
          maximum_fetched_at = 9000001;
        }
        ∷ [];
    gaps = gap ∷ [];
  };
}

built : build 10000000 ≡ ok version
unfolding program
built = refl

too_early :
    build 9000000 ≡ raise (value_error "dataset version contains evidence unavailable at cutoff")
unfolding program
too_early = refl

detect_gaps-IsTrueGap_example : All (IsTrueGap 2000000 rows) (gap ∷ [])
detect_gaps-IsTrueGap_example = detect_gaps-IsTrueGap (pos 2000000) rows detected

detect_gaps-covers_example :
    ((o : HistoricalObservation) × Memᴰ o rows
      × (o.provider ≡ str "p")
      × (o.observed_at ≤ 6000000)
      × (6000000 < o.observed_at + 2000000))
    ⊎ ((g : DatasetGap) × Memᴰ g (gap ∷ [])
        × (text (str "p") "provider" ≡ ok g.provider)
        × (g.starts_at ≤ 6000000)
        × (6000000 < g.ends_at))
detect_gaps-covers_example =
    detect_gaps-covers (pos 2000000) rows (observation (str "o2") 3000000)
      (observation (str "o3") 9000000) 6000000 detected (Memᴰ.tail (Memᴰ.tail (Memᴰ.head refl)))
      (Memᴰ.head refl) refl (omega arith) (omega arith)

build_dataset_version-IsPinned_example :
    IsPinned sha256 content_json
      (manifest ∷ [])
      (partition ∷ [])
      rows
      (some (pos 2000000))
      false
      version
build_dataset_version-IsPinned_example =
    build_dataset_version-IsPinned sha256 content_json (str " d ") (str "1") (manifest ∷ [])
      (partition ∷ []) rows (str "f1") (str "l1") (aware 20000000) (aware 10000000)
      (some (pos 2000000)) false built
