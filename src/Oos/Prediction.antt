-- ===== src/Oos/Prediction.antt =====
-- `OOSPrediction.build`, on a fold of the walk-forward study. The JSON texts that are hashed are
-- parameters.
use xrp_inteliggence_x.Base.{
  ℕ, ◌^◌, Bool, false, not, ◌&&◌, ◌||◌, none, some, List, ◌++◌, String, ltb, leb, length, is_nil,
  exists, elements, same, list_order, nat_order, sort_by, ℤ, pos, ltb_ℤ, Str, str, is_sha256,
  after_prefix, Result, ok, raise, ◌>>=◌, ◌>>◌, raise_if, collect, value_error, DateTime, utc,
}
use xrp_inteliggence_x.Contract.Observation.{text}
use xrp_inteliggence_x.Store.Partitions.{repeats}
use xrp_inteliggence_x.WalkForward.Rows.{ResearchHorizon, same_horizon}
use xrp_inteliggence_x.WalkForward.Folds.{WalkForwardFoldPlan}

-- A `float`. A finite one is a multiple of 2 ^ -1074.
pub data Float : Type 0 where
  nan : Float
  infinite : Bool → Float
  finite : ℤ → Float

-- The multiples of 2 ^ -1074 in 1.0.
unfoldable pub one : ℕ
one = 2 ^ 1074

abbrev pub zero_float : Float
zero_float = finite (pos 0)

-- `_score`
unfoldable pub score : Float → Result Float
score nan = raise (value_error "raw_score must be finite and within [0, 1]")
score (infinite positive) = raise (value_error "raw_score must be finite and within [0, 1]")
score (finite z) = do
  raise_if (ltb_ℤ z (pos 0) || ltb_ℤ (pos one) z)
      (value_error "raw_score must be finite and within [0, 1]")
  ok (finite z)

-- `_sha_prefixed`
unfoldable pub sha_prefixed : String → Str → String → Result Str
sha_prefixed prefix value field = elim (after_prefix (str prefix) value) [
  | none ↦ raise (value_error field)
  | some digest ↦ do raise_if (not (is_sha256 digest)) (value_error field); ok value
]

pub record RawPrediction : Type 0 where
  pub feature_row_id : Str
  pub prediction_time : DateTime
  pub horizon : ResearchHorizon
  pub event_key : Str
  pub model_id : Str
  pub model_version : Str
  pub model_training_cutoff : DateTime
  pub feature_schema_version : Str
  pub provider_universe_version : Str
  pub source_snapshot_ids : List Str
  pub raw_score : Float

-- The fields that are hashed. The only semantics of a score is RAW_MODEL_SCORE.
pub record PredictionContent : Type 0 where
  pub fold_id : Str
  pub feature_row_id : Str
  pub prediction_time : ℕ
  pub horizon : ResearchHorizon
  pub event_key : Str
  pub model_id : Str
  pub model_version : Str
  pub model_training_cutoff : ℕ
  pub training_feature_digest : Str
  pub training_sample_count : ℕ
  pub feature_schema_version : Str
  pub provider_universe_version : Str
  pub source_snapshot_ids : List Str
  pub raw_score : Float
  pub probability_calibrated : Bool
  pub decision_authority : Bool
  pub execution_weight : Float

pub record OosPrediction : Type 0 where
  pub prediction_id : Str
  pub prediction_sha256 : Str
  pub content : PredictionContent

module _ (sha256 : Str → Str) (ids_json : List Str → Str)
    (content_json : PredictionContent → Str) where
  -- `_training_digest`
  unfoldable pub training_digest : List Str → Result Str
  training_digest ids = do
    raise_if (is_nil ids) (value_error "training feature set cannot be empty")
    raise_if (repeats ids) (value_error "training feature ids must be unique")
    ok (sha256 (ids_json ids))

  -- The identity of a content, by its digest.
  abbrev pub identified : PredictionContent → OosPrediction
  identified c = record {
    prediction_id = str "oos-prediction:sha256:" ++ sha256 (content_json c);
    prediction_sha256 = sha256 (content_json c);
    content = c;
  }

  -- The guards of `build` against the fold.
  unfoldable pub check_fold : WalkForwardFoldPlan → RawPrediction → ℕ → ℕ → Result (Unit {0})
  check_fold fold r prediction cutoff = do
    raise_if (not (same_horizon r.horizon fold.horizon))
        (value_error "prediction horizon must match fold horizon")
    raise_if (not (exists (same r.feature_row_id) fold.test_feature_row_ids))
        (value_error "feature_row_id is not part of the fold test set")
    raise_if
        (not (leb fold.test_prediction_start prediction && leb prediction fold.test_prediction_end))
        (value_error "prediction_time must lie inside the fold test interval")
    raise_if (ltb fold.cutoff_at cutoff)
        (value_error "model_training_cutoff cannot exceed fold cutoff")

  -- `OOSPrediction.build`
  unfoldable pub build_prediction : WalkForwardFoldPlan → RawPrediction → Result OosPrediction
  build_prediction fold r = do
    feature_id ← sha_prefixed "feature:sha256:" r.feature_row_id "feature_row_id"
    prediction ← utc r.prediction_time "prediction_time"
    cutoff ← utc r.model_training_cutoff "model_training_cutoff"
    check_fold fold r prediction cutoff
    digest ← training_digest fold.train_feature_row_ids
    named ←
        collect (λ s. sha_prefixed "snapshot:sha256:" s "source_snapshot_id") r.source_snapshot_ids
    raise_if (is_nil named) (value_error "at least one source snapshot is required")
    event ← text r.event_key "event_key"
    model ← text r.model_id "model_id"
    version ← text r.model_version "model_version"
    schema ← text r.feature_schema_version "feature_schema_version"
    universe ← text r.provider_universe_version "provider_universe_version"
    raw_score ← score r.raw_score
    fold_id ← text fold.fold_id "fold_id"
    ok (
        identified (record {
          fold_id = fold_id;
          feature_row_id = feature_id;
          prediction_time = prediction;
          horizon = r.horizon;
          event_key = event;
          model_id = model;
          model_version = version;
          model_training_cutoff = cutoff;
          training_feature_digest = digest;
          training_sample_count = length fold.train_feature_row_ids;
          feature_schema_version = schema;
          provider_universe_version = universe;
          source_snapshot_ids = sort_by (λ s. s) (elements named);
          raw_score = raw_score;
          probability_calibrated = false;
          decision_authority = false;
          execution_weight = zero_float;
        }))
