-- ===== src/WalkForward/Plans.antt =====
-- What a round of the loop and the loop's result consist of when they succeed.
use xrp_inteliggence_x.Base.{
  ℕ, ◌+◌, ◌-◌, ◌≤◌, ◌≡◌, refl, true, none, some, List, [], ◌∷◌, map, leb, if◌then◌else◌, length,
  take, drop, All, All-map, lex_at_most, list_order, nat_order, IsAscending, Result, ok, raise,
  >>=-eq-ok, minus_delta, Str, arith, ◌≢◌,
}
use xrp_inteliggence_x.WalkForward.Rows.{
  ResearchHorizon, LabeledFeatureRow, WalkForwardConfig, row_id, row_key,
}
use xrp_inteliggence_x.WalkForward.Folds.{
  WalkForwardFoldPlan, FoldMaterial, Rows, first_time, last_time, label_id, resolved_before,
  limit_train, plan, planned, fold_at, Folds, prepend, some_folds,
}

time_of_key :
    (r x : LabeledFeatureRow)
    → lex_at_most (row_key r) (row_key x) ≡ true
    → r.feature.prediction_time ≤ x.feature.prediction_time
unfolding lex_at_most
time_of_key r x h = ground arith

-- Ascending rows are no earlier than the first of them.
pub All-after_first :
    (rows : Rows) {start : ℕ}
    → IsAscending row_key rows
    → first_time rows ≡ ok start
    → All (λ r. start ≤ r.feature.prediction_time) rows
All-after_first [] h e = tt
All-after_first (r ∷ rows) h e =
    (ground arith, All-map _ _ rows (λ x k. let le = time_of_key r x k in ground arith) h.0)

pub minus_delta-eq-ok : (t d : ℕ) {u : ℕ} → minus_delta t d ≡ ok u → u + d ≡ t
unfolding minus_delta
minus_delta-eq-ok t d h = ground arith

module _ (fold_digest : FoldMaterial → Str) where
  pub plan-fields :
      (horizon : ResearchHorizon) (c : WalkForwardConfig) (index cutoff purged : ℕ)
      (train test : Rows) {p : WalkForwardFoldPlan}
      → plan fold_digest horizon c index cutoff purged train test ≡ ok p
      → (p.cutoff_at ≡ cutoff)
        × (p.fold_index ≡ index)
        × (p.train_feature_row_ids ≡ map row_id train)
        × (p.train_label_ids ≡ map label_id train)
        × (p.test_feature_row_ids ≡ map row_id test)
        × (p.test_label_ids ≡ map label_id test)
        × (first_time test ≡ ok p.test_prediction_start)
  unfolding plan
  plan-fields horizon c index cutoff purged train test h =
      let (a, ea, ha) = >>=-eq-ok (first_time train) _ h in
      let (b, eb, hb) = >>=-eq-ok (last_time train) _ ha in
      let (x, ex, hx) = >>=-eq-ok (first_time test) _ hb in
      let (y, ey, hy) = >>=-eq-ok (last_time test) _ hx in
      (
        ground arith,
        ground arith,
        ground arith,
        ground arith,
        ground arith,
        ground arith,
        ground arith,
      )

  -- The parts of a call of the loop's body that makes a plan.
  pub record Made (ordered : Rows) (horizon : ResearchHorizon) (c : WalkForwardConfig)
      (test_start index : ℕ) (p : WalkForwardFoldPlan) : Type 0 where
    pub start : ℕ
    pub cutoff : ℕ
    pub train : Rows
    pub started : first_time (take c.test_size (drop test_start ordered)) ≡ ok start
    pub embargoed : minus_delta start c.embargo ≡ ok cutoff
    pub trained :
        limit_train c.mode c.max_train_size (resolved_before cutoff (take test_start ordered))
        ≡ ok train
    pub enough : c.min_train_size ≤ length train
    pub purged : ℕ
    pub planned_as :
        plan fold_digest horizon c index cutoff purged train
          (take c.test_size (drop test_start ordered))
        ≡ ok p

  planned-eq-ok :
      (r : Result WalkForwardFoldPlan) {p : WalkForwardFoldPlan}
      → planned fold_digest r ≡ ok (some p)
      → r ≡ ok p
  planned-eq-ok (ok q) h = ground arith
  planned-eq-ok (raise e) h = cc

  pub fold_at-Made :
      (ordered : Rows) (horizon : ResearchHorizon) (c : WalkForwardConfig) (test_start index : ℕ)
      {p : WalkForwardFoldPlan}
      → fold_at fold_digest ordered horizon c test_start index ≡ ok (some p)
      → Made ordered horizon c test_start index p
  unfolding fold_at
  fold_at-Made ordered horizon c test_start index {p} h =
      let test = take c.test_size (drop test_start ordered) in
      let preceding = take test_start ordered in
      let (start, started, h1) = >>=-eq-ok (first_time test) _ h in
      let (cutoff, embargoed, h2) = >>=-eq-ok (minus_delta start c.embargo) _ h1 in
      let (train, trained, h3) =
        >>=-eq-ok (limit_train c.mode c.max_train_size (resolved_before cutoff preceding)) _ h2 in
      let purged = length preceding - length (resolved_before cutoff preceding) in
      let (enough, made) =
        taken (plan fold_digest horizon c index cutoff purged train test) (length train) h3 in
      record {
        start = start;
        cutoff = cutoff;
        train = train;
        started = started;
        embargoed = embargoed;
        trained = trained;
        enough = enough;
        purged = purged;
        planned_as = made;
      }
    where
      taken :
          (r : Result WalkForwardFoldPlan) (n : ℕ)
          → (if leb c.min_train_size n then planned fold_digest r else ok none) ≡ ok (some p)
          → (c.min_train_size ≤ n) × (r ≡ ok p)
      taken r n e = ground (arith, planned-eq-ok r)

  pub prepend-eq-ok :
      (p : WalkForwardFoldPlan) (rest : Folds fold_digest) {ps : List WalkForwardFoldPlan}
      → prepend fold_digest p rest ≡ some (ok ps)
      → (qs : List WalkForwardFoldPlan) × (rest ≡ some (ok qs)) × (ps ≡ p ∷ qs)
  prepend-eq-ok p none h = cc
  prepend-eq-ok p (some (raise e)) h = cc
  prepend-eq-ok p (some (ok qs)) h = (qs, refl, ground arith)

  pub some_folds-eq-ok :
      (f : Folds fold_digest) {ps : List WalkForwardFoldPlan}
      → some_folds fold_digest f ≡ ok ps
      → (f ≡ some (ok ps)) × (ps ≢ [])
  some_folds-eq-ok none h = cc
  some_folds-eq-ok (some (raise e)) h = cc
  some_folds-eq-ok (some (ok [])) h = cc
  some_folds-eq-ok (some (ok (p ∷ ps))) h = (ground arith, λ e. cc)
