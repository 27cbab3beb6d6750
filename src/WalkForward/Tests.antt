-- ===== src/WalkForward/Tests.antt =====
-- A study of four rows.
use xrp_inteliggence_x.Base.{
  ℕ, ◌+◌, ◌≡◌, ◌≢◌, refl, none, some, List, [], ◌∷◌, All, AllDistinct, Memᴰ, lex_at_most,
  list_order, nat_order, sort_by, lookup, insert, minus_delta, Str, str, Result, ok, raise, collect,
  value_error, pos, negsuc, arith,
}
use xrp_inteliggence_x.WalkForward.Rows.{
  ResearchHorizon, FeatureRow, OutcomeLabel, LabeledFeatureRow, labeled_row, WalkForwardMode,
  RawWalkForwardConfig, WalkForwardConfig, check_mode, walk_forward_config, sort_rows, all_unique,
  single_horizon, check_ordered, features_by_id, labels_by_id, missing_from, join_one,
  join_labeled_rows,
}
use xrp_inteliggence_x.WalkForward.Folds.{
  WalkForwardFoldPlan, FoldMaterial, Rows, resolved_before, last_rows, limit_train, plan, fold_at,
  folds_from, checked_rows, build_walk_forward_folds,
}
use xrp_inteliggence_x.WalkForward.Config.{IsValid, walk_forward_config-IsValid}
use xrp_inteliggence_x.WalkForward.Leakage.{ArePlans, build_walk_forward_folds-IsLeakageFree}
use xrp_inteliggence_x.WalkForward.Windows.{
  tested, folds_from-total, build_walk_forward_folds-AllDistinct,
}
use xrp_inteliggence_x.WalkForward.Join.{IsPairOf, join_labeled_rows-IsPairOf}

program : Unit {0}
unfolding labeled_row check_mode walk_forward_config sort_rows all_unique single_horizon
    check_ordered features_by_id labels_by_id missing_from join_one join_labeled_rows
    resolved_before last_rows limit_train plan fold_at folds_from checked_rows
    build_walk_forward_folds sort_by lex_at_most lookup insert collect minus_delta
program = tt

abbrev feature_row : Str → ℕ → FeatureRow
feature_row i t = record { feature_row_id = i; prediction_time = t; horizon = ResearchHorizon.h1 }

abbrev outcome_label : Str → ℕ → OutcomeLabel
outcome_label i t = record {
  label_id = i;
  feature_row_id = i;
  prediction_time = t;
  horizon = ResearchHorizon.h1;
  label_end_at = t + 4;
  resolved_at = t + 5;
}

abbrev features : List FeatureRow
features = feature_row (str "b") 20 ∷ feature_row (str "a") 10 ∷ feature_row (str "c") 30 ∷ []

abbrev labels : List OutcomeLabel
labels = outcome_label (str "c") 30 ∷ outcome_label (str "a") 10 ∷ outcome_label (str "b") 20 ∷ []

abbrev labeled : Str → ℕ → LabeledFeatureRow
labeled i t = record { feature = feature_row i t; label = outcome_label i t }

abbrev rows : Rows
rows = labeled (str "a") 10 ∷ labeled (str "b") 20 ∷ labeled (str "c") 30 ∷ []

join : join_labeled_rows features labels ≡ ok rows
unfolding program
join = refl

join_orphan :
    join_labeled_rows (feature_row (str "a") 10 ∷ []) (outcome_label (str "b") 10 ∷ [])
    ≡ raise (value_error "missing labels for ; orphan labels for ")
unfolding program
join_orphan = refl

abbrev raw : RawWalkForwardConfig
raw = record {
  min_train_size = pos 1;
  test_size = pos 1;
  step_size = none;
  mode = WalkForwardMode.rolling;
  max_train_size = some (pos 1);
  embargo = pos 2;
}

abbrev config : WalkForwardConfig
config = record {
  min_train_size = 1;
  test_size = 1;
  step_size = none;
  mode = WalkForwardMode.rolling;
  max_train_size = some 1;
  embargo = 2;
}

configured : walk_forward_config raw ≡ ok config
unfolding program
configured = refl

negative_embargo :
    walk_forward_config (record raw { embargo = negsuc 0 })
    ≡ raise (value_error "embargo cannot be negative")
unfolding program
negative_embargo = refl

-- In place of JSON text and SHA-256: the tested identifiers.
abbrev digest : FoldMaterial → Str
digest m = collapse m.test_feature_row_ids
  where
    collapse : List Str → Str
    collapse [] = []
    collapse (x ∷ xs) = x

abbrev fold : ℕ → Str → Str → ℕ → ℕ → ℕ → WalkForwardFoldPlan
fold index train test train_time test_time purged = record {
  fold_id = test;
  fold_index = index;
  horizon = ResearchHorizon.h1;
  mode = WalkForwardMode.rolling;
  cutoff_at = train_time + 8;
  embargo = 2;
  purged_count = purged;
  train_feature_row_ids = train ∷ [];
  train_label_ids = train ∷ [];
  test_feature_row_ids = test ∷ [];
  test_label_ids = test ∷ [];
  train_prediction_start = train_time;
  train_prediction_end = train_time;
  test_prediction_start = test_time;
  test_prediction_end = test_time;
}

abbrev folds : List WalkForwardFoldPlan
folds = fold 0 (str "a") (str "b") 10 20 0 ∷ fold 1 (str "b") (str "c") 20 30 0 ∷ []

built : build_walk_forward_folds digest rows config ≡ ok folds
unfolding program
built = refl

config-IsValid : IsValid config
config-IsValid = walk_forward_config-IsValid raw configured

build_walk_forward_folds-IsLeakageFree_example : ArePlans rows config 0 folds × (folds ≢ [])
build_walk_forward_folds-IsLeakageFree_example =
    build_walk_forward_folds-IsLeakageFree digest rows config config-IsValid built

build_walk_forward_folds-AllDistinct_example : AllDistinct (tested folds)
build_walk_forward_folds-AllDistinct_example =
    build_walk_forward_folds-AllDistinct digest rows config config-IsValid built

folds_from-total_example :
    (r : Result (List WalkForwardFoldPlan)) × (folds_from digest 4 rows ResearchHorizon.h1 config 1
        0
      ≡ some r)
folds_from-total_example =
    folds_from-total digest rows ResearchHorizon.h1 config config-IsValid 4 1 0 (omega arith)
      (omega arith)

join_labeled_rows-IsPairOf_example :
    All (IsPairOf features labels) rows
    × All (λ f. (r : LabeledFeatureRow) × Memᴰ r rows × (r.feature ≡ f)) features
join_labeled_rows-IsPairOf_example = join_labeled_rows-IsPairOf features labels join
