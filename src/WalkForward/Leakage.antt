-- ===== src/WalkForward/Leakage.antt =====
-- No fold trains on a label that is resolved after its cutoff.
use xrp_inteliggence_x.Base.{
  ℕ, zero, suc, ◌+◌, ◌-◌, ◌≤◌, ◌<◌, ◌≡◌, refl, sym, subst, Bool, true, false, Option, none, some,
  List, [], ◌∷◌, map, Memᴰ, ltb, leb, if◌then◌else◌, length, take, drop, keep, All, All-map,
  All_of_mem, All-by_mem, All-keep, All-take, All-drop, length-drop, length-take_of_le, list_order,
  nat_order, sort_by, IsAscending, sort_by-IsAscending, mem_of_sort_by, Result, ok, raise,
  >>=-eq-ok, Str, arith, ◌≢◌, leb→le, IsAscending-take, IsAscending-drop, ltb→lt,
}
use xrp_inteliggence_x.WalkForward.Rows.{
  ResearchHorizon, LabeledFeatureRow, WalkForwardMode, WalkForwardConfig, row_id, row_key,
  sort_rows, effective_step_size,
}
use xrp_inteliggence_x.WalkForward.Folds.{
  WalkForwardFoldPlan, FoldMaterial, Rows, label_id, resolved_before, last_rows, limit_train,
  fold_at, prepend, folds_from, build_walk_forward_folds, checked_rows,
}
use xrp_inteliggence_x.WalkForward.Config.{IsValid, LimitIsValid}
use xrp_inteliggence_x.WalkForward.Plans.{
  All-after_first, minus_delta-eq-ok, plan-fields, fold_at-Made, prepend-eq-ok, some_folds-eq-ok,
}

abbrev pub IsWithin : Option ℕ → ℕ → Type 0
IsWithin none n = Unit
IsWithin (some limit) n = n ≤ limit

-- The size of the training rows that a configuration allows.
abbrev pub SizeIsValid : WalkForwardConfig → ℕ → Type 0
SizeIsValid c n = (c.min_train_size ≤ n) × IsWithin c.max_train_size n

-- The rows behind a plan.
pub record IsLeakageFree (rows : Rows) (config : WalkForwardConfig) (p : WalkForwardFoldPlan)
    : Type 0 where
  pub train : Rows
  pub test : Rows
  pub train_ids : p.train_feature_row_ids ≡ map row_id train
  pub train_labels : p.train_label_ids ≡ map label_id train
  pub test_ids : p.test_feature_row_ids ≡ map row_id test
  pub test_labels : p.test_label_ids ≡ map label_id test
  pub resolved : All (λ r. Memᴰ r rows × (r.label.resolved_at < p.cutoff_at)) train
  pub unseen :
      All (λ r. Memᴰ r rows × (p.cutoff_at + config.embargo ≤ r.feature.prediction_time)) test
  pub opened : p.cutoff_at + config.embargo ≤ p.test_prediction_start
  pub train_size : SizeIsValid config (length train)
  pub test_size : length test ≡ config.test_size

module _ (cutoff : ℕ) (rows preceding : Rows) (given : All (λ r. Memᴰ r rows) preceding) where
  resolved_before-All :
      All (λ r. Memᴰ r rows × (r.label.resolved_at < cutoff)) (resolved_before cutoff preceding)
  unfolding resolved_before
  resolved_before-All =
      All-map _ _ (keep (λ r. ltb r.label.resolved_at cutoff) preceding)
        (λ r h. (h.0, ltb→lt r.label.resolved_at cutoff h.1))
        (All-keep (λ r. Memᴰ r rows) (λ r. ltb r.label.resolved_at cutoff) preceding given)

limit_train-All :
    (P : LabeledFeatureRow → Type 0) (mode : WalkForwardMode) (limit : Option ℕ) (rows : Rows)
    {train : Rows}
    → limit_train mode limit rows ≡ ok train
    → All P rows
    → All P train
unfolding limit_train last_rows
limit_train-All P WalkForwardMode.expanding limit rows h all = subst (All P) (ground arith) all
limit_train-All P WalkForwardMode.rolling none rows h all = cc
limit_train-All P WalkForwardMode.rolling (some n) rows h all =
    subst (All P) (ground arith) (All-drop P (length rows - n) rows all)

length-last_rows-le : (n : ℕ) (rows : Rows) → length (last_rows n rows) ≤ n
unfolding last_rows
length-last_rows-le n rows = omega (arith, length-drop (length rows - n) rows)

limit_train-size :
    (c : WalkForwardConfig) (rows : Rows) {train : Rows}
    → LimitIsValid c.mode c.max_train_size c.min_train_size
    → limit_train c.mode c.max_train_size rows ≡ ok train
    → c.min_train_size ≤ length train
    → SizeIsValid c (length train)
unfolding limit_train
limit_train-size c rows {train} valid h enough = (enough, go c.mode c.max_train_size valid h)
  where
    go :
        (mode : WalkForwardMode) (max : Option ℕ)
        → LimitIsValid mode max c.min_train_size
        → limit_train mode max rows ≡ ok train
        → IsWithin max (length train)
    go WalkForwardMode.expanding max v e = rw v tt
    go WalkForwardMode.rolling none v e = cc
    go WalkForwardMode.rolling (some n) v e = ground (arith, length-last_rows-le n rows)

module _ (fold_digest : FoldMaterial → Str) where
  fold_at-IsLeakageFree :
      (rows ordered : Rows) (horizon : ResearchHorizon) (c : WalkForwardConfig)
      (test_start index : ℕ) {p : WalkForwardFoldPlan}
      → All (λ r. Memᴰ r rows) ordered
      → IsAscending row_key ordered
      → IsValid c
      → test_start + c.test_size ≤ length ordered
      → fold_at fold_digest ordered horizon c test_start index ≡ ok (some p)
      → IsLeakageFree rows c p × (p.fold_index ≡ index)
  fold_at-IsLeakageFree rows ordered horizon c test_start index {p} given ascending valid room h =
      let m = fold_at-Made fold_digest ordered horizon c test_start index h in
      let test = take c.test_size (drop test_start ordered) in
      let preceding = take test_start ordered in
      let (cut, numbered, train_ids, train_labels, test_ids, test_labels, opens) =
        plan-fields fold_digest horizon c index m.cutoff m.purged m.train test m.planned_as in
      let late =
        All-after_first test
          (IsAscending-take row_key c.test_size (drop test_start ordered)
            (IsAscending-drop row_key test_start ordered ascending))
          m.started in
      let embargo = minus_delta-eq-ok m.start c.embargo m.embargoed in
      let test_given =
        All-take (λ r. Memᴰ r rows) c.test_size (drop test_start ordered)
          (All-drop (λ r. Memᴰ r rows) test_start ordered given) in
      (
        record {
          train = m.train;
          test = test;
          train_ids = train_ids;
          train_labels = train_labels;
          test_ids = test_ids;
          test_labels = test_labels;
          resolved = rw cut (
              limit_train-All (λ r. Memᴰ r rows × (r.label.resolved_at < m.cutoff)) c.mode
                c.max_train_size (resolved_before m.cutoff preceding) m.trained
                (resolved_before-All m.cutoff rows preceding
                  (All-take (λ r. Memᴰ r rows) test_start ordered given)));
          unseen =
              rw (cut, embargo)
                (All-by_mem _ test
                  (λ r k. (All_of_mem _ test test_given k, All_of_mem _ test late k)));
          opened =
              let s = m.started in
              let start : p.test_prediction_start ≡ m.start = cc in omega arith;
          train_size =
              limit_train-size c (resolved_before m.cutoff preceding) valid.limited m.trained
                m.enough;
          test_size =
              length-take_of_le c.test_size (drop test_start ordered)
                (omega (arith, length-drop test_start ordered));
        },
        numbered,
      )

-- The plans of a study, numbered from `index` on.
abbrev pub ArePlans : Rows → WalkForwardConfig → ℕ → List WalkForwardFoldPlan → Type 0
ArePlans rows config index [] = Unit
ArePlans rows config index (p ∷ ps) =
    IsLeakageFree rows config p × (p.fold_index ≡ index) × ArePlans rows config (index + 1) ps

module _ (fold_digest : FoldMaterial → Str) where
  module _ (rows ordered : Rows) (horizon : ResearchHorizon) (c : WalkForwardConfig)
      (given : All (λ r. Memᴰ r rows) ordered) (ascending : IsAscending row_key ordered)
      (valid : IsValid c) where
    folds_from-ArePlans :
        (fuel test_start index : ℕ) {ps : List WalkForwardFoldPlan}
        → folds_from fold_digest fuel ordered horizon c test_start index ≡ some (ok ps)
        → ArePlans rows c index ps
    unfolding folds_from
    folds_from-ArePlans zero test_start index h = cc
    folds_from-ArePlans (suc fuel) test_start index {ps} h =
        let next = test_start + effective_step_size c in
        go (leb (test_start + c.test_size) (length ordered)) refl
          (fold_at fold_digest ordered horizon c test_start index) refl h
          (λ i qs e. folds_from-ArePlans fuel next i {ps = qs} e)
      where
        go :
            (b : Bool)
            → leb (test_start + c.test_size) (length ordered) ≡ b
            → (r : Result (Option WalkForwardFoldPlan))
            → fold_at fold_digest ordered horizon c test_start index ≡ r
            → (if b
                then elim r [
                  | raise e ↦ some (raise e)
                  | ok none ↦
                      folds_from fold_digest fuel ordered horizon c
                        (test_start + effective_step_size c)
                        index
                  | ok (some p) ↦ prepend fold_digest p (
                      folds_from fold_digest fuel ordered horizon c
                        (test_start + effective_step_size c)
                        (index + 1))
                ]
                else some (ok []))
              ≡ some (ok ps)
            → ((i : ℕ) (qs : List WalkForwardFoldPlan)
                → folds_from fold_digest fuel ordered horizon c
                    (test_start + effective_step_size c)
                    i
                  ≡ some (ok qs)
                → ArePlans rows c i qs)
            → ArePlans rows c index ps
        go false room r e h ih = let no_more : ps ≡ [] = ground arith in rw no_more tt
        go true room (raise x) e h ih = cc
        go true room (ok none) e h ih = ih index ps h
        go true room (ok (some p)) e h ih =
            let (qs, rest, split) = prepend-eq-ok fold_digest p _ h in
            let (free, numbered) =
              fold_at-IsLeakageFree fold_digest rows ordered horizon c test_start index given
                ascending valid (leb→le _ _ room) e in
            subst (ArePlans rows c index) (sym split) (free, numbered, ih (index + 1) qs rest)

  -- Every fold that is built trains only on given rows whose label is resolved before the fold's
  -- cutoff, tests only on given rows that lie the embargo or more after that cutoff, as its test
  -- interval does, has as many rows of each kind as the configuration asks for, and carries its place as its index. There is
  -- at least one fold.
  pub build_walk_forward_folds-IsLeakageFree :
      (rows : Rows) (c : WalkForwardConfig) {ps : List WalkForwardFoldPlan}
      → IsValid c
      → build_walk_forward_folds fold_digest rows c ≡ ok ps
      → ArePlans rows c 0 ps × (ps ≢ [])
  unfolding build_walk_forward_folds sort_rows
  build_walk_forward_folds-IsLeakageFree rows c valid h =
      let (horizon, checked, made) = >>=-eq-ok (checked_rows fold_digest rows) _ h in
      let ordered = sort_by row_key rows in
      let (loop, nonempty) =
        some_folds-eq-ok fold_digest
          (folds_from fold_digest (suc (length ordered)) ordered horizon c c.min_train_size 0)
          made in
      (
        folds_from-ArePlans rows ordered horizon c
            (All-by_mem _ ordered (λ r m. mem_of_sort_by row_key rows m))
            (sort_by-IsAscending row_key rows) valid (suc (length ordered)) c.min_train_size 0 loop,
        nonempty,
      )
