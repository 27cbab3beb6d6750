-- ===== src/Oos/OutOfSample.antt =====
-- What a prediction that is built says of its fold, and of the study that the fold comes from.
use xrp_inteliggence_x.Base.{
  ℕ, String, ◌+◌, ◌≤◌, ◌<◌, ◌≡◌, refl, sym, subst, true, false, not, ◌&&◌, ◌||◌, List, map, Memᴰ,
  leb, length, exists, same, list_order, nat_order, All, All-map, ltb_ℤ, pos, is_nil, Str, ok,
  raise_if, raise_if-eq-ok, >>=-eq-ok, collect, utc, arith,
}
use xrp_inteliggence_x.Contract.Observation.{text}
use xrp_inteliggence_x.Store.Partitions.{repeats}
use xrp_inteliggence_x.WalkForward.Rows.{WalkForwardConfig, same_horizon, row_id}
use xrp_inteliggence_x.WalkForward.Folds.{WalkForwardFoldPlan, Rows}
use xrp_inteliggence_x.WalkForward.Leakage.{IsLeakageFree}
use xrp_inteliggence_x.Oos.Prediction.{
  Float, nan, infinite, finite, one, score, sha_prefixed, RawPrediction, PredictionContent,
  OosPrediction, training_digest, check_fold, build_prediction,
}
use xrp_inteliggence_x.Oos.Ledger.{is_nonzero}

-- A score within [0, 1].
abbrev pub IsUnit : Float → Type 0
IsUnit nan = ⊥
IsUnit (infinite positive) = ⊥
IsUnit (finite z) = (ltb_ℤ z (pos 0) ≡ false) × (ltb_ℤ (pos one) z ≡ false)

score-IsUnit : (x : Float) {y : Float} → score x ≡ ok y → IsUnit y
unfolding score
score-IsUnit nan h = cc
score-IsUnit (infinite b) h = cc
score-IsUnit (finite z) {y} h =
    let (u, within, same_score) =
      >>=-eq-ok (raise_if (ltb_ℤ z (pos 0) || ltb_ℤ (pos one) z) _) _ h in
    let e : finite z ≡ y = ground arith in subst IsUnit e (ground arith, ground arith)

-- The prediction keeps to its fold and claims nothing.
pub record IsOutOfSample (fold : WalkForwardFoldPlan) (p : OosPrediction) : Type 0 where
  pub tested : exists (same p.content.feature_row_id) fold.test_feature_row_ids ≡ true
  pub begun : fold.test_prediction_start ≤ p.content.prediction_time
  pub before_end : p.content.prediction_time ≤ fold.test_prediction_end
  pub trained_before : p.content.model_training_cutoff ≤ fold.cutoff_at
  pub same_fold_horizon : same_horizon p.content.horizon fold.horizon ≡ true
  pub training_is_a_set : repeats fold.train_feature_row_ids ≡ false
  pub counted : p.content.training_sample_count ≡ length fold.train_feature_row_ids
  pub scored : IsUnit p.content.raw_score
  pub uncalibrated : p.content.probability_calibrated ≡ false
  pub without_authority : p.content.decision_authority ≡ false
  pub unweighted : is_nonzero p.content.execution_weight ≡ false

sha_prefixed-eq-ok :
    (prefix : String) (value : Str) (field : String) {v : Str}
    → sha_prefixed prefix value field ≡ ok v
    → v ≡ value
unfolding sha_prefixed
sha_prefixed-eq-ok prefix value field h = ground arith

module _ (sha256 : Str → Str) (ids_json : List Str → Str)
    (content_json : PredictionContent → Str) where
  training_digest-eq-ok :
      (ids : List Str) {d : Str}
      → training_digest sha256 ids_json content_json ids ≡ ok d
      → repeats ids ≡ false
  unfolding training_digest
  training_digest-eq-ok ids h =
      let (u, some_ids, h1) = >>=-eq-ok (raise_if (is_nil ids) _) _ h in
      let (v, unique, h2) = >>=-eq-ok (raise_if (repeats ids) _) _ h1 in raise_if-eq-ok _ _ unique

  -- The guards against the fold.
  record IsInFold (fold : WalkForwardFoldPlan) (r : RawPrediction) (prediction cutoff : ℕ)
      : Type 0 where
    pub horizon : same_horizon r.horizon fold.horizon ≡ true
    pub tested : exists (same r.feature_row_id) fold.test_feature_row_ids ≡ true
    pub begun : fold.test_prediction_start ≤ prediction
    pub before_end : prediction ≤ fold.test_prediction_end
    pub trained_before : cutoff ≤ fold.cutoff_at

  check_fold-IsInFold :
      (fold : WalkForwardFoldPlan) (r : RawPrediction) (prediction cutoff : ℕ) {u : Unit {0}}
      → check_fold sha256 ids_json content_json fold r prediction cutoff ≡ ok u
      → IsInFold fold r prediction cutoff
  unfolding check_fold
  check_fold-IsInFold fold r prediction cutoff h =
      let (a, horizon, h1) =
        >>=-eq-ok (raise_if (not (same_horizon r.horizon fold.horizon)) _) _ h in
      let (b, tested, h2) =
        >>=-eq-ok (raise_if (not (exists (same r.feature_row_id) fold.test_feature_row_ids)) _) _
          h1 in
      let (c, within, h3) =
        >>=-eq-ok
          (raise_if
            (not (
              leb fold.test_prediction_start prediction && leb prediction fold.test_prediction_end))
            _)
          _ h2 in
      record {
        horizon = ground arith;
        tested = ground arith;
        begun = ground arith;
        before_end = ground arith;
        trained_before = ground arith;
      }

  -- A prediction that is built is of a row of the fold's test set, at a time within the test
  -- interval, by a model whose training ends by the fold's cutoff, on a training set without
  -- repetitions, which it counts. Its score is within [0, 1], and it claims no calibration, no
  -- authority and no weight.
  pub build_prediction-IsOutOfSample :
      (fold : WalkForwardFoldPlan) (r : RawPrediction) {p : OosPrediction}
      → build_prediction sha256 ids_json content_json fold r ≡ ok p
      → IsOutOfSample fold p
  unfolding build_prediction
  build_prediction-IsOutOfSample fold r {p} h =
      let (id, named, h1) =
        >>=-eq-ok (sha_prefixed "feature:sha256:" r.feature_row_id "feature_row_id") _ h in
      let (prediction, e2, h2) = >>=-eq-ok (utc r.prediction_time "prediction_time") _ h1 in
      let (cutoff, e3, h3) = >>=-eq-ok (utc r.model_training_cutoff "model_training_cutoff") _ h2 in
      let (u, checked, h4) =
        >>=-eq-ok (check_fold sha256 ids_json content_json fold r prediction cutoff) _ h3 in
      let (digest, trained, h5) =
        >>=-eq-ok (training_digest sha256 ids_json content_json fold.train_feature_row_ids) _ h4 in
      let (snapshots, e6, h6) =
        >>=-eq-ok
          (collect (λ s. sha_prefixed "snapshot:sha256:" s "source_snapshot_id")
            r.source_snapshot_ids)
          _ h5 in
      let (v, some_snapshots, h7) = >>=-eq-ok (raise_if (is_nil snapshots) _) _ h6 in
      let (event, e8, h8) = >>=-eq-ok (text r.event_key "event_key") _ h7 in
      let (model, e9, h9) = >>=-eq-ok (text r.model_id "model_id") _ h8 in
      let (version, e10, h10) = >>=-eq-ok (text r.model_version "model_version") _ h9 in
      let (schema, e11, h11) =
        >>=-eq-ok (text r.feature_schema_version "feature_schema_version") _ h10 in
      let (universe, e12, h12) =
        >>=-eq-ok (text r.provider_universe_version "provider_universe_version") _ h11 in
      let (raw, scored, h13) = >>=-eq-ok (score r.raw_score) _ h12 in
      let (fold_id, e14, h14) = >>=-eq-ok (text fold.fold_id "fold_id") _ h13 in
      let f = check_fold-IsInFold fold r prediction cutoff checked in
      subst (IsOutOfSample fold) (ok_injective h14) (record {
        tested =
            subst (λ i. exists (same i) fold.test_feature_row_ids ≡ true)
              (sym (sha_prefixed-eq-ok "feature:sha256:" r.feature_row_id "feature_row_id" named))
              f.tested;
        begun = f.begun;
        before_end = f.before_end;
        trained_before = f.trained_before;
        same_fold_horizon = f.horizon;
        training_is_a_set = training_digest-eq-ok fold.train_feature_row_ids trained;
        counted = refl;
        scored = score-IsUnit r.raw_score scored;
        uncalibrated = refl;
        without_authority = refl;
        unweighted = refl;
      })
    where
      ok_injective : {q : OosPrediction} → ok q ≡ ok p → q ≡ p
      ok_injective e = cc

  -- What the study of a fold knew at the time of a prediction.
  pub record IsAhead (rows : Rows) (config : WalkForwardConfig) (fold : WalkForwardFoldPlan)
      (p : OosPrediction) : Type 0 where
    pub train : Rows
    pub trained_on : fold.train_feature_row_ids ≡ map row_id train
    pub known :
        All
          (λ r. Memᴰ r rows × (r.label.resolved_at + config.embargo < p.content.prediction_time))
          train
    pub cutoff_is_known :
        p.content.model_training_cutoff + config.embargo ≤ p.content.prediction_time

  -- A prediction that is built on a fold free of leakage is made the embargo or more after the
  -- training of its model ends, and after the labels of all rows of the training set, which are rows
  -- of the study, were resolved.
  pub build_prediction-IsAhead :
      (rows : Rows) (config : WalkForwardConfig) (fold : WalkForwardFoldPlan) (r : RawPrediction)
      {p : OosPrediction}
      → IsLeakageFree rows config fold
      → build_prediction sha256 ids_json content_json fold r ≡ ok p
      → IsAhead rows config fold p
  build_prediction-IsAhead rows config fold r {p} free h =
      let out = build_prediction-IsOutOfSample fold r h in
      let a = free.opened in
      let b = out.begun in
      let c = out.trained_before in
      record {
        train = free.train;
        trained_on = free.train_ids;
        known = All-map _ _ free.train (λ x (given, resolved). (given, omega arith)) free.resolved;
        cutoff_is_known = omega arith;
      }
