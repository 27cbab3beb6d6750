-- ===== src/Dataset/Content.antt =====
-- The fields of `DatasetVersion` and their checks. The two eligibility fractions are exact, where the
-- source has floats, and sum to one exactly, where the source allows a difference of 1e-12.
use xrp_inteliggence_x.Base.{
  ℕ, ◌+◌, ◌*◌, Bool, not, ◌||◌, none, some, List, [], ◌∷◌, ◌++◌, String, map, ltb, ◌==◌, length,
  is_nil, same, list_order, nat_order, sort_by, Str, str, is_sha256, after_prefix, Result, ok,
  raise, ◌>>◌, raise_if, value_error,
}
use xrp_inteliggence_x.Store.Partitions.{repeats}
use xrp_inteliggence_x.Dataset.Coverage.{ProviderCoverage, DatasetGap}

pub record Fraction : Type 0 where
  pub numerator : ℕ
  pub denominator : ℕ

-- The fields that are hashed.
pub record DatasetContent : Type 0 where
  pub dataset_key : Str
  pub schema_version : Str
  pub source_manifest_ids : List Str
  pub source_manifest_hashes : List Str
  pub partition_ids : List Str
  pub partition_hashes : List Str
  pub feature_schema_version : Str
  pub label_schema_version : Str
  pub created_at : ℕ
  pub cutoff_at : ℕ
  pub total_rows : ℕ
  pub strict_replay_fraction : Fraction
  pub reconstructed_pit_fraction : Fraction
  pub coverage : List ProviderCoverage
  pub gaps : List DatasetGap

pub record DatasetVersion : Type 0 where
  pub dataset_version_id : Str
  pub dataset_sha256 : Str
  pub content : DatasetContent

-- `_content_id`
unfoldable pub content_id : Str → Str → String → Result (Unit {0})
content_id value prefix field = elim (after_prefix prefix value) [
  | none ↦ raise (value_error field)
  | some digest ↦ raise_if (not (is_sha256 digest)) (value_error field)
]

unfoldable pub content_ids : Str → String → List Str → Result (Unit {0})
content_ids prefix field [] = ok tt
content_ids prefix field (v ∷ vs) = do content_id v prefix field; content_ids prefix field vs

abbrev pub is_sorted : List Str → Bool
is_sorted xs = same xs (sort_by (λ x. x) xs)

abbrev pub exceeds_one : Fraction → Bool
exceeds_one f = ltb f.denominator f.numerator

abbrev pub sum_to_one : Fraction → Fraction → Bool
sum_to_one a b =
    a.numerator * b.denominator + b.numerator * a.denominator == a.denominator * b.denominator

-- `any` of the fields of the source that only `__post_init__` looks at.
unfoldable pub check_lists : DatasetContent → Result (Unit {0})
check_lists c = do
  raise_if (is_nil c.source_manifest_ids || is_nil c.partition_ids || is_nil c.coverage)
      (value_error "dataset version requires manifests, partitions and provider coverage")
  raise_if (not (length c.source_manifest_ids == length c.source_manifest_hashes))
      (value_error "manifest ids and hashes must have equal length")
  raise_if (not (length c.partition_ids == length c.partition_hashes))
      (value_error "partition ids and hashes must have equal length")
  raise_if (repeats c.source_manifest_ids) (value_error "source_manifest_ids must be unique")
  raise_if (repeats c.partition_ids) (value_error "partition_ids must be unique")
  raise_if (not (is_sorted c.source_manifest_ids))
      (value_error "source_manifest_ids must be sorted")
  raise_if (not (is_sorted c.partition_ids)) (value_error "partition_ids must be sorted")
  content_ids (str "manifest:sha256:") "manifest_id" c.source_manifest_ids
  content_ids (str "partition:sha256:") "partition_id" c.partition_ids
  content_ids (str "sha256:") "content hash"
      (map (λ d. str "sha256:" ++ d) (c.source_manifest_hashes ++ c.partition_hashes))
