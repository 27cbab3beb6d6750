-- ===== src/WalkForward/Folds.antt =====
-- `build_walk_forward_folds`.
use xrp_inteliggence_x.Base.{
  is_nil, ℕ, zero, suc, ◌+◌, ◌-◌, not, Option, none, some, List, [], ◌∷◌, map, ltb, leb,
  if◌then◌else◌, length, take, drop, keep, Str, Result, ok, raise, ◌>>=◌, ◌>>◌, raise_if,
  value_error, runtime_error, type_error, index_error, minus_delta,
}
use xrp_inteliggence_x.WalkForward.Rows.{
  ResearchHorizon, LabeledFeatureRow, WalkForwardMode, WalkForwardConfig, effective_step_size,
  row_id, sort_rows, all_unique, check_ordered,
}

pub record WalkForwardFoldPlan : Type 0 where
  pub fold_id : Str
  pub fold_index : ℕ
  pub horizon : ResearchHorizon
  pub mode : WalkForwardMode
  pub cutoff_at : ℕ
  pub embargo : ℕ
  pub purged_count : ℕ
  pub train_feature_row_ids : List Str
  pub train_label_ids : List Str
  pub test_feature_row_ids : List Str
  pub test_label_ids : List Str
  pub train_prediction_start : ℕ
  pub train_prediction_end : ℕ
  pub test_prediction_start : ℕ
  pub test_prediction_end : ℕ

-- What the identifier of a fold is computed from.
pub record FoldMaterial : Type 0 where
  pub fold_index : ℕ
  pub horizon : ResearchHorizon
  pub mode : WalkForwardMode
  pub cutoff_at : ℕ
  pub embargo : ℕ
  pub train_feature_row_ids : List Str
  pub train_label_ids : List Str
  pub test_feature_row_ids : List Str
  pub test_label_ids : List Str

abbrev pub Rows : Type 0
Rows = List LabeledFeatureRow

-- `rows[0].feature.prediction_time` and `rows[-1].feature.prediction_time`
abbrev pub first_time : Rows → Result ℕ
first_time [] = raise index_error
first_time (r ∷ rows) = ok r.feature.prediction_time

abbrev pub last_time : Rows → Result ℕ
last_time [] = raise index_error
last_time (r ∷ []) = ok r.feature.prediction_time
last_time (r ∷ s ∷ rows) = last_time (s ∷ rows)

abbrev pub label_id : LabeledFeatureRow → Str
label_id r = r.label.label_id

-- The rows whose label is known before the cutoff.
unfoldable pub resolved_before : ℕ → Rows → Rows
resolved_before cutoff rows = keep (λ r. ltb r.label.resolved_at cutoff) rows

-- `rows[-n:]` for a positive `n`
unfoldable pub last_rows : ℕ → Rows → Rows
last_rows n rows = drop (length rows - n) rows

unfoldable pub limit_train : WalkForwardMode → Option ℕ → Rows → Result Rows
limit_train WalkForwardMode.expanding max_train_size rows = ok rows
limit_train WalkForwardMode.rolling none rows = raise type_error
limit_train WalkForwardMode.rolling (some n) rows = ok (last_rows n rows)

-- JSON text and SHA-256 of the material, which the program imports.
module _ (fold_digest : FoldMaterial → Str) where
  unfoldable pub plan :
      ResearchHorizon → WalkForwardConfig → ℕ → ℕ → ℕ → Rows → Rows → Result WalkForwardFoldPlan
  plan horizon config fold_index cutoff purged train test = do
    train_start ← first_time train
    train_end ← last_time train
    test_start ← first_time test
    test_end ← last_time test
    ok (record {
      fold_id = fold_digest (record {
        fold_index = fold_index;
        horizon = horizon;
        mode = config.mode;
        cutoff_at = cutoff;
        embargo = config.embargo;
        train_feature_row_ids = map row_id train;
        train_label_ids = map label_id train;
        test_feature_row_ids = map row_id test;
        test_label_ids = map label_id test;
      });
      fold_index = fold_index;
      horizon = horizon;
      mode = config.mode;
      cutoff_at = cutoff;
      embargo = config.embargo;
      purged_count = purged;
      train_feature_row_ids = map row_id train;
      train_label_ids = map label_id train;
      test_feature_row_ids = map row_id test;
      test_label_ids = map label_id test;
      train_prediction_start = train_start;
      train_prediction_end = train_end;
      test_prediction_start = test_start;
      test_prediction_end = test_end;
    })

  abbrev pub planned : Result WalkForwardFoldPlan → Result (Option WalkForwardFoldPlan)
  planned (ok p) = ok (some p)
  planned (raise e) = raise e

  -- The body of the loop: the plan at a test start, if enough rows are left to train on.
  unfoldable pub fold_at :
      Rows → ResearchHorizon → WalkForwardConfig → ℕ → ℕ → Result (Option WalkForwardFoldPlan)
  fold_at ordered horizon config test_start fold_index =
      let test = take config.test_size (drop test_start ordered) in
      let preceding = take test_start ordered in
      do
        start ← first_time test
        cutoff ← minus_delta start config.embargo
        train ← limit_train config.mode config.max_train_size (resolved_before cutoff preceding)
        let purged = length preceding - length (resolved_before cutoff preceding)
        let made = planned (plan horizon config fold_index cutoff purged train test)
        if leb config.min_train_size (length train) then made else ok none

  abbrev pub Folds : Type 0
  Folds = Option (Result (List WalkForwardFoldPlan))

  abbrev pub prepend : WalkForwardFoldPlan → Folds → Folds
  prepend p none = none
  prepend p (some (raise e)) = some (raise e)
  prepend p (some (ok ps)) = some (ok (p ∷ ps))

  -- The `while` loop, with fuel: `none` means that it ran out.
  unfoldable pub folds_from : ℕ → Rows → ResearchHorizon → WalkForwardConfig → ℕ → ℕ → Folds
  folds_from zero ordered horizon config test_start fold_index = none
  folds_from (suc fuel) ordered horizon config test_start fold_index =
      let next = test_start + effective_step_size config in
      if leb (test_start + config.test_size) (length ordered)
      then elim (fold_at ordered horizon config test_start fold_index) [
        | raise e ↦ some (raise e)
        | ok none ↦ folds_from fuel ordered horizon config next fold_index
        | ok (some p) ↦ prepend p (folds_from fuel ordered horizon config next (fold_index + 1))
      ]
      else some (ok [])

  abbrev pub some_folds : Folds → Result (List WalkForwardFoldPlan)
  some_folds none = raise (runtime_error "out of fuel")
  some_folds (some (raise e)) = raise e
  some_folds (some (ok [])) = raise (value_error "no leakage-safe walk-forward folds can be built")
  some_folds (some (ok (p ∷ ps))) = ok (p ∷ ps)

  abbrev pub horizon_of : Rows → Result ResearchHorizon
  horizon_of [] = raise (value_error "walk-forward rows must contain exactly one research horizon")
  horizon_of (r ∷ rows) = ok r.feature.horizon

  -- The checks before the loop.
  unfoldable pub checked_rows : Rows → Result ResearchHorizon
  checked_rows rows =
      let ordered = sort_rows rows in
      do
        raise_if (is_nil rows) (value_error "rows cannot be empty")
        raise_if (not (all_unique (map row_id ordered)))
            (value_error "feature_row_id values must be unique")
        check_ordered ordered
        horizon_of ordered

  unfoldable pub build_walk_forward_folds :
      Rows → WalkForwardConfig → Result (List WalkForwardFoldPlan)
  build_walk_forward_folds rows config =
      let ordered = sort_rows rows in
      do
        horizon ← checked_rows rows
        some_folds
            (folds_from (suc (length ordered)) ordered horizon config config.min_train_size 0)
