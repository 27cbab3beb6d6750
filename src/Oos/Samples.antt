-- ===== src/Oos/Samples.antt =====
-- The rows, the fold, the predictions and the ledger of the tests.
use xrp_inteliggence_x.Base.{
  ℕ, ◌+◌, true, false, none, some, List, [], ◌∷◌, ◌++◌, take, Option, list_order, nat_order, Str,
  str, pos, aware,
}
use xrp_inteliggence_x.WalkForward.Rows.{
  ResearchHorizon, LabeledFeatureRow, WalkForwardMode, RawWalkForwardConfig, WalkForwardConfig,
}
use xrp_inteliggence_x.WalkForward.Folds.{WalkForwardFoldPlan, FoldMaterial, Rows}
use xrp_inteliggence_x.Oos.Prediction.{finite, RawPrediction, PredictionContent, OosPrediction}
use xrp_inteliggence_x.Oos.Outcome.{OutcomeLabelLike, OutcomeContent, ResolvedOosOutcome}
use xrp_inteliggence_x.Oos.Ledger.{Ledger}
use xrp_inteliggence_x.Oos.Sessions.{Operation, predict, resolve}

-- In place of SHA-256: hexadecimal digits padded to 64.
abbrev pub sha256 : Str → Str
sha256 payload =
    take 64 (payload ++ str "0000000000000000000000000000000000000000000000000000000000000000")

abbrev pub row_name : Str → Str
row_name s = str "feature:sha256:" ++ sha256 s

abbrev pub row : Str → ℕ → LabeledFeatureRow
row s t = record {
  feature = record {
    feature_row_id = row_name s;
    prediction_time = t;
    horizon = ResearchHorizon.h1;
  };
  label = record {
    label_id = s;
    feature_row_id = row_name s;
    prediction_time = t;
    horizon = ResearchHorizon.h1;
    label_end_at = t + 4;
    resolved_at = t + 5;
  };
}

abbrev pub rows : Rows
rows = row (str "a") 10 ∷ row (str "b") 20 ∷ []

abbrev pub raw_config : RawWalkForwardConfig
raw_config = record {
  min_train_size = pos 1;
  test_size = pos 1;
  step_size = none;
  mode = WalkForwardMode.expanding;
  max_train_size = none;
  embargo = pos 2;
}

abbrev pub config : WalkForwardConfig
config = record {
  min_train_size = 1;
  test_size = 1;
  step_size = none;
  mode = WalkForwardMode.expanding;
  max_train_size = none;
  embargo = 2;
}

abbrev pub fold_digest : FoldMaterial → Str
fold_digest m = str "fold"

abbrev pub fold : WalkForwardFoldPlan
fold = record {
  fold_id = str "fold";
  fold_index = 0;
  horizon = ResearchHorizon.h1;
  mode = WalkForwardMode.expanding;
  cutoff_at = 18;
  embargo = 2;
  purged_count = 0;
  train_feature_row_ids = row_name (str "a") ∷ [];
  train_label_ids = str "a" ∷ [];
  test_feature_row_ids = row_name (str "b") ∷ [];
  test_label_ids = str "b" ∷ [];
  train_prediction_start = 10;
  train_prediction_end = 10;
  test_prediction_start = 20;
  test_prediction_end = 20;
}

abbrev pub ids_json : List Str → Str
ids_json ids = str "1"

abbrev pub content_json : PredictionContent → Str
content_json c = c.event_key

abbrev pub outcome_content_json : OutcomeContent → Str
outcome_content_json c = c.label_id

abbrev pub raw : RawPrediction
raw = record {
  feature_row_id = row_name (str "b");
  prediction_time = aware 20;
  horizon = ResearchHorizon.h1;
  event_key = str "return_gt_0";
  model_id = str " m ";
  model_version = str "1";
  model_training_cutoff = aware 18;
  feature_schema_version = str "1";
  provider_universe_version = str "1";
  source_snapshot_ids =
      (str "snapshot:sha256:" ++ sha256 (str "2"))
      ∷ (str "snapshot:sha256:" ++ sha256 (str "1"))
      ∷ (str "snapshot:sha256:" ++ sha256 (str "2"))
      ∷ [];
  raw_score = finite (pos 1);
}

abbrev pub prediction : OosPrediction
prediction = record {
  prediction_id = str "oos-prediction:sha256:" ++ sha256 (str "return_gt_0");
  prediction_sha256 = sha256 (str "return_gt_0");
  content = record {
    fold_id = str "fold";
    feature_row_id = row_name (str "b");
    prediction_time = 20;
    horizon = ResearchHorizon.h1;
    event_key = str "return_gt_0";
    model_id = str "m";
    model_version = str "1";
    model_training_cutoff = 18;
    training_feature_digest = sha256 (str "1");
    training_sample_count = 1;
    feature_schema_version = str "1";
    provider_universe_version = str "1";
    source_snapshot_ids =
        (str "snapshot:sha256:" ++ sha256 (str "1"))
        ∷ (str "snapshot:sha256:" ++ sha256 (str "2"))
        ∷ [];
    raw_score = finite (pos 1);
    probability_calibrated = false;
    decision_authority = false;
    execution_weight = finite (pos 0);
  };
}

abbrev pub label : OutcomeLabelLike
label = record {
  label_id = str "b";
  feature_row_id = row_name (str "b");
  prediction_time = aware 20;
  horizon = ResearchHorizon.h1;
  label_end_at = aware 24;
  resolved_at = aware 25;
  future_return = finite (pos 3);
  positive_return_touches = (str "0.1", true) ∷ [];
  negative_return_touches = [];
  absolute_price_touches = [];
}

abbrev pub outcome : ResolvedOosOutcome
outcome = record {
  outcome_id = str "oos-outcome:sha256:" ++ sha256 (str "b");
  outcome_sha256 = sha256 (str "b");
  content = record {
    prediction_id = prediction.prediction_id;
    label_id = str "b";
    feature_row_id = row_name (str "b");
    event_key = str "return_gt_0";
    horizon = ResearchHorizon.h1;
    prediction_time = 20;
    label_end_at = 24;
    resolved_at = 25;
    actual = true;
  };
}

abbrev pub prediction_json : OosPrediction → Str
prediction_json p = p.prediction_id

abbrev pub outcome_json : ResolvedOosOutcome → Str
outcome_json o = o.outcome_id

abbrev pub saves : List Operation
saves = resolve outcome ∷ predict prediction ∷ resolve outcome ∷ predict prediction ∷ []

abbrev pub ledger : Ledger
ledger = record {
  metadata = [];
  predictions =
      (
        prediction.prediction_id,
        record { columns = prediction; payload_json = prediction.prediction_id },
      )
      ∷ [];
  outcomes =
      (prediction.prediction_id, record { columns = outcome; payload_json = outcome.outcome_id })
      ∷ [];
}

abbrev pub read_prediction : Str → Option OosPrediction
read_prediction s = some prediction

abbrev pub read_outcome : Str → Option ResolvedOosOutcome
read_outcome s = some outcome
