-- ===== src/Oos/Tests.antt =====
-- A prediction on the fold of a study of two rows, with its outcome.
use xrp_inteliggence_x.Base.{
  elements, ◌≡◌, refl, true, List, [], ◌∷◌, lex_at_most, list_order, nat_order, sort_by, lookup,
  insert, minus_delta, str, strip, is_sha256, after_prefix, ok, raise, collect, value_error, pos,
  negsuc, utc, aware, arith,
}
use xrp_inteliggence_x.Contract.Observation.{text}
use xrp_inteliggence_x.Store.Partitions.{repeats}
use xrp_inteliggence_x.WalkForward.Rows.{
  check_mode, walk_forward_config, sort_rows, all_unique, single_horizon, check_ordered,
}
use xrp_inteliggence_x.WalkForward.Folds.{
  resolved_before, last_rows, limit_train, plan, fold_at, folds_from, checked_rows,
  build_walk_forward_folds,
}
use xrp_inteliggence_x.WalkForward.Config.{IsValid, walk_forward_config-IsValid}
use xrp_inteliggence_x.WalkForward.Leakage.{IsLeakageFree, build_walk_forward_folds-IsLeakageFree}
use xrp_inteliggence_x.Oos.Prediction.{
  finite, one, score, sha_prefixed, OosPrediction, training_digest, check_fold, build_prediction,
}
use xrp_inteliggence_x.Oos.Outcome.{ResolvedOosOutcome, event_actual, resolve_outcome}
use xrp_inteliggence_x.Oos.Ledger.{
  new_database, initialize, prediction_matches, outcome_matches, insert_prediction, save_prediction,
  insert_outcome, save_outcome, join, read_pair, resolved_pairs,
}
use xrp_inteliggence_x.Oos.Sound.{IsSound, Keeps}
use xrp_inteliggence_x.Oos.Sessions.{step, run, run-IsSound}
use xrp_inteliggence_x.Oos.Pairs.{IsReadable, ArePairs, resolved_pairs-ArePairs}
use xrp_inteliggence_x.Oos.OutOfSample.{
  IsOutOfSample, build_prediction-IsOutOfSample, IsAhead, build_prediction-IsAhead,
}
use xrp_inteliggence_x.Oos.Samples.{
  sha256, rows, raw_config, config, fold_digest, fold, ids_json, content_json, outcome_content_json,
  raw, prediction, label, prediction_json, outcome_json, saves, ledger, read_prediction,
  read_outcome,
}

program : Unit {0}
unfolding check_mode walk_forward_config sort_rows all_unique single_horizon check_ordered
    resolved_before last_rows limit_train plan fold_at folds_from checked_rows
    build_walk_forward_folds sort_by lex_at_most lookup insert collect minus_delta text strip
    is_sha256 after_prefix utc one score sha_prefixed repeats elements training_digest check_fold
    build_prediction event_actual resolve_outcome initialize prediction_matches outcome_matches
    insert_prediction save_prediction insert_outcome save_outcome join read_pair resolved_pairs step
    run
program = tt

config-IsValid : IsValid config
unfolding program
config-IsValid = walk_forward_config-IsValid raw_config refl

fold-IsLeakageFree : IsLeakageFree rows config fold
unfolding program
fold-IsLeakageFree =
    (build_walk_forward_folds-IsLeakageFree fold_digest rows config {ps = fold ∷ []} config-IsValid
      refl).0.0

built : build_prediction sha256 ids_json content_json fold raw ≡ ok prediction
unfolding program
built = refl

peeking :
    build_prediction sha256 ids_json content_json fold
      (record raw { model_training_cutoff = aware 19 })
    ≡ raise (value_error "model_training_cutoff cannot exceed fold cutoff")
unfolding program
peeking = refl

negative_score :
    score (finite (negsuc 0)) ≡ raise (value_error "raw_score must be finite and within [0, 1]")
unfolding program
negative_score = refl

touched_up : event_actual (str "touch_return_up:0.1") label ≡ ok true
unfolding program
touched_up = refl

no_barrier :
    event_actual (str "touch_price:3") label
    ≡ raise (value_error "label does not contain event barrier")
unfolding program
no_barrier = refl

-- The first outcome is refused, since its prediction is not stored yet.
saved :
    run sha256 content_json outcome_content_json prediction_json outcome_json saves new_database
    ≡ ledger
unfolding program
saved = refl

foreign_database :
    initialize (pos 5000) (record ledger { metadata = (str "ledger_role", str "OTHER") ∷ [] })
    ≡ raise (value_error "database already belongs to another OOS ledger role")
unfolding program
foreign_database = refl

ledger-IsSound :
    IsSound sha256 content_json outcome_content_json prediction_json outcome_json ledger
unfolding program
ledger-IsSound =
    (run-IsSound sha256 content_json outcome_content_json prediction_json outcome_json saves []).0

ledger-IsReadable :
    IsReadable sha256 content_json outcome_content_json prediction_json outcome_json read_prediction
      read_outcome ledger
unfolding lookup
ledger-IsReadable = record {
  predictions = λ id r found. ground arith;
  outcomes = λ id r found. ground arith;
}

run-IsSound_example :
    IsSound sha256 content_json outcome_content_json prediction_json outcome_json
      (run sha256 content_json outcome_content_json prediction_json outcome_json saves new_database)
    × Keeps sha256 content_json outcome_content_json prediction_json outcome_json
        (run sha256 content_json outcome_content_json prediction_json outcome_json saves
          new_database)
        (run sha256 content_json outcome_content_json prediction_json outcome_json saves (
          run sha256 content_json outcome_content_json prediction_json outcome_json saves
            new_database))
run-IsSound_example =
    run-IsSound sha256 content_json outcome_content_json prediction_json outcome_json saves saves

resolved_pairs-ArePairs_example :
    (pairs : List (OosPrediction × ResolvedOosOutcome)) × (resolved_pairs sha256 content_json
        outcome_content_json prediction_json outcome_json read_prediction read_outcome ledger
      ≡ ok pairs)
    × ArePairs sha256 content_json outcome_content_json prediction_json outcome_json read_prediction
        read_outcome ledger pairs
resolved_pairs-ArePairs_example =
    resolved_pairs-ArePairs sha256 content_json outcome_content_json prediction_json outcome_json
      read_prediction read_outcome ledger ledger-IsSound ledger-IsReadable

build_prediction-IsOutOfSample_example : IsOutOfSample fold prediction
build_prediction-IsOutOfSample_example =
    build_prediction-IsOutOfSample sha256 ids_json content_json fold raw built

build_prediction-IsAhead_example : IsAhead sha256 ids_json content_json rows config fold prediction
build_prediction-IsAhead_example =
    build_prediction-IsAhead sha256 ids_json content_json rows config fold raw fold-IsLeakageFree
      built
