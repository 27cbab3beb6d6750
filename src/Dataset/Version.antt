-- ===== src/Dataset/Version.antt =====
-- `DatasetVersion.__post_init__` and `build_dataset_version`. The JSON text that is hashed is a
-- parameter.
use xrp_inteliggence_x.Base.{
  ℕ, ◌+◌, Bool, true, false, not, ◌&&◌, ◌||◌, Option, none, some, List, [], ◌∷◌, ◌++◌, map, ltb,
  ◌==◌, if◌then◌else◌, length, is_nil, every, exists, same, list_order, nat_order, sort_by, Dict,
  lookup, insert, ℤ, Str, str, Result, ok, raise, ◌>>=◌, ◌>>◌, raise_if, value_error, DateTime, utc,
}
use xrp_inteliggence_x.Contract.Observation.{EligibilityClass, eligibility, text}
use xrp_inteliggence_x.Store.Model.{DurablePartition}
use xrp_inteliggence_x.Store.Partitions.{repeats}
use xrp_inteliggence_x.Store.Manifests.{DurableManifest, total_rows}
use xrp_inteliggence_x.Dataset.Coverage.{
  ProviderCoverage, DatasetGap, Rows, provider_coverages, detect_gaps,
}
use xrp_inteliggence_x.Dataset.Content.{
  Fraction, DatasetContent, DatasetVersion, content_id, is_sorted, exceeds_one, sum_to_one,
  check_lists,
}

module _ (sha256 : Str → Str) (content_json : DatasetContent → Str) where
  -- `DatasetVersion.__post_init__`
  unfoldable pub dataset_version : DatasetVersion → Result DatasetVersion
  dataset_version v = do
    let c = v.content
    content_id v.dataset_version_id (str "dataset-version:sha256:") "dataset_version_id"
    content_id (str "dataset-version:sha256:" ++ v.dataset_sha256) (str "dataset-version:sha256:")
        "dataset_sha256"
    key ← text c.dataset_key "dataset_key"
    schema ← text c.schema_version "schema_version"
    features ← text c.feature_schema_version "feature_schema_version"
    labels ← text c.label_schema_version "label_schema_version"
    raise_if (ltb c.created_at c.cutoff_at) (value_error "created_at cannot precede cutoff_at")
    raise_if (ltb c.total_rows 1) (value_error "total_rows must be positive")
    check_lists c
    raise_if (exceeds_one c.strict_replay_fraction || exceeds_one c.reconstructed_pit_fraction)
        (value_error "eligibility fractions must be within [0, 1]")
    raise_if (not (sum_to_one c.strict_replay_fraction c.reconstructed_pit_fraction))
        (value_error "eligibility fractions must sum to one")
    raise_if
        (not (is_sorted (map (λ x. x.provider) c.coverage))
          || repeats (map (λ x. x.provider) c.coverage))
        (value_error "provider_coverage must be unique and sorted by provider")
    raise_if (not (same v.dataset_version_id (str "dataset-version:sha256:" ++ v.dataset_sha256)))
        (value_error "dataset_version_id must match dataset_sha256")
    let kept = record c {
      dataset_key = key;
      schema_version = schema;
      feature_schema_version = features;
      label_schema_version = labels;
    }
    raise_if (not (same v.dataset_sha256 (sha256 (content_json kept))))
        (value_error "dataset content-addressed identity does not match canonical payload")
    ok (record v { content = kept })

  -- `{item.partition_id: item for item in partitions}`
  unfoldable pub partition_by_id :
      Dict Str DurablePartition → List DurablePartition → Dict Str DurablePartition
  partition_by_id d [] = d
  partition_by_id d (p ∷ ps) = partition_by_id (insert p.partition_id p d) ps

  -- The inner loop over the partitions of a manifest: the number of their rows.
  unfoldable pub manifest_rows : Dict Str DurablePartition → Str → List Str → Result ℕ
  manifest_rows given dataset [] = ok 0
  manifest_rows given dataset (id ∷ ids) = elim (lookup id given) [
    | none ↦ raise (value_error "manifest references a partition not supplied to dataset version")
    | some p ↦ do
      raise_if (not (same p.dataset dataset))
          (value_error "manifest references a partition from another dataset")
      rest ← manifest_rows given dataset ids
      ok (p.row_count + rest)
  ]

  unfoldable pub check_manifest : Dict Str DurablePartition → DurableManifest → Result (Unit {0})
  check_manifest given m = do
    raise_if (repeats m.partition_ids) (value_error "manifest contains duplicate partition ids")
    rows ← manifest_rows given m.dataset m.partition_ids
    raise_if (not (rows == m.total_rows))
        (value_error "manifest total_rows disagrees with referenced partitions")

  unfoldable pub check_manifests :
      Dict Str DurablePartition → List DurableManifest → Result (Unit {0})
  check_manifests given [] = ok tt
  check_manifests given (m ∷ ms) = do check_manifest given m; check_manifests given ms

  unfoldable pub referenced : List DurableManifest → List Str
  referenced [] = []
  referenced (m ∷ ms) = m.partition_ids ++ referenced ms

  -- `set(xs) != set(ys)`
  abbrev pub sets_differ : List Str → List Str → Bool
  sets_differ xs ys = not (every (λ x. exists (same x) ys) xs && every (λ y. exists (same y) xs) ys)

  abbrev pub is_strict : EligibilityClass → Bool
  is_strict EligibilityClass.strict_replay = true
  is_strict EligibilityClass.reconstructed_pit = false
  is_strict EligibilityClass.ineligible = false

  abbrev pub is_reconstructed : EligibilityClass → Bool
  is_reconstructed EligibilityClass.strict_replay = false
  is_reconstructed EligibilityClass.reconstructed_pit = true
  is_reconstructed EligibilityClass.ineligible = false

  abbrev pub is_ineligible : EligibilityClass → Bool
  is_ineligible EligibilityClass.strict_replay = false
  is_ineligible EligibilityClass.reconstructed_pit = false
  is_ineligible EligibilityClass.ineligible = true

  unfoldable pub count_of : (EligibilityClass → Bool) → List EligibilityClass → ℕ
  count_of test [] = 0
  count_of test (e ∷ es) = let rest = count_of test es in if test e then rest + 1 else rest

  -- The checks of `build_dataset_version` on what it is given.
  unfoldable pub check_evidence :
      List DurableManifest → List DurablePartition → Rows → ℕ → Bool → Result (Unit {0})
  check_evidence manifests partitions os cutoff allow_reconstructed = do
    raise_if (is_nil manifests || is_nil partitions || is_nil os)
        (value_error "dataset version requires manifests, partitions and observations")
    raise_if (repeats (map (λ m. m.manifest_id) manifests))
        (value_error "manifest ids must be unique")
    raise_if (repeats (map (λ p. p.partition_id) partitions))
        (value_error "partition ids must be unique")
    raise_if (repeats (map (λ o. o.observation_id) os))
        (value_error "observation ids must be unique")
    check_manifests (partition_by_id [] partitions) manifests
    raise_if (sets_differ (referenced manifests) (map (λ p. p.partition_id) partitions))
        (value_error "dataset partitions must exactly match manifest references")
    raise_if (not (total_rows partitions == length os))
        (value_error "observation count must match durable partition row count")
    raise_if (exists (λ o. is_ineligible (eligibility o cutoff)) os)
        (value_error "dataset version contains evidence unavailable at cutoff")
    raise_if (exists (λ o. is_reconstructed (eligibility o cutoff)) os && not allow_reconstructed)
        (value_error "reconstructed PIT evidence requires explicit opt-in")

  abbrev pub identified_version : DatasetContent → DatasetVersion
  identified_version c = record {
    dataset_version_id = str "dataset-version:sha256:" ++ sha256 (content_json c);
    dataset_sha256 = sha256 (content_json c);
    content = c;
  }

  abbrev pub fraction_of : (EligibilityClass → Bool) → ℕ → Rows → Fraction
  fraction_of test cutoff os = record {
    numerator = count_of test (map (λ o. eligibility o cutoff) os);
    denominator = length os;
  }

  -- The fields of the version, from what was checked.
  unfoldable pub content_of :
      Str
      → Str
      → Str
      → Str
      → List DurableManifest
      → List DurablePartition
      → Rows
      → ℕ
      → ℕ
      → List ProviderCoverage
      → List DatasetGap
      → DatasetContent
  content_of key schema features labels manifests partitions os created cutoff coverage gaps =
      let ordered_manifests = sort_by (λ m. m.manifest_id) manifests in
      let ordered_partitions = sort_by (λ p. p.partition_id) partitions in
      record {
        dataset_key = key;
        schema_version = schema;
        source_manifest_ids = map (λ m. m.manifest_id) ordered_manifests;
        source_manifest_hashes = map (λ m. m.manifest_sha256) ordered_manifests;
        partition_ids = map (λ p. p.partition_id) ordered_partitions;
        partition_hashes = map (λ p. p.file_sha256) ordered_partitions;
        feature_schema_version = features;
        label_schema_version = labels;
        created_at = created;
        cutoff_at = cutoff;
        total_rows = total_rows partitions;
        strict_replay_fraction = fraction_of is_strict cutoff os;
        reconstructed_pit_fraction = fraction_of is_reconstructed cutoff os;
        coverage = coverage;
        gaps = gaps;
      }

  -- `build_dataset_version`
  unfoldable pub build_dataset_version :
      Str
      → Str
      → List DurableManifest
      → List DurablePartition
      → Rows
      → Str
      → Str
      → DateTime
      → DateTime
      → Option ℤ
      → Bool
      → Result DatasetVersion
  build_dataset_version dataset_key schema_version manifests partitions os feature_schema
        label_schema created_at cutoff_at expected_interval allow_reconstructed =
      do
        key ← text dataset_key "dataset_key"
        schema ← text schema_version "schema_version"
        features ← text feature_schema "feature_schema_version"
        labels ← text label_schema "label_schema_version"
        created ← utc created_at "created_at"
        cutoff ← utc cutoff_at "cutoff_at"
        raise_if (ltb created cutoff) (value_error "created_at cannot precede cutoff_at")
        check_evidence manifests partitions os cutoff allow_reconstructed
        coverage ← provider_coverages os
        gaps ← detect_gaps expected_interval os
        dataset_version (
            identified_version (
              content_of key schema features labels manifests partitions os created cutoff coverage
                gaps))
