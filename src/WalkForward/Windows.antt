-- ===== src/WalkForward/Windows.antt =====
-- The test windows of a study do not overlap, and its loop ends.
use xrp_inteliggence_x.Base.{
  ℕ, zero, suc, ◌+◌, ◌≤◌, ◌<◌, ◌≡◌, refl, Bool, true, false, Option, none, some, List, [], ◌∷◌,
  ◌++◌, map, leb, if◌then◌else◌, length, take, drop, exists, All, same, list_order, nat_order,
  AllDistinct, Str, Result, ok, raise, >>=-eq-ok, Subsequence, over, Subsequence-take,
  Subsequence-drop, Subsequence-AllDistinct, drop-add, arith, leb→le,
}
use xrp_inteliggence_x.WalkForward.Rows.{
  ResearchHorizon, WalkForwardConfig, row_id, sort_rows, all_unique, effective_step_size,
}
use xrp_inteliggence_x.WalkForward.Folds.{
  WalkForwardFoldPlan, FoldMaterial, Rows, fold_at, prepend, folds_from, checked_rows,
  build_walk_forward_folds,
}
use xrp_inteliggence_x.WalkForward.Config.{IsValid}
use xrp_inteliggence_x.WalkForward.Plans.{
  fold_at-Made, plan-fields, prepend-eq-ok, some_folds-eq-ok,
}

-- The identifiers of all tested rows, fold after fold.
abbrev pub tested : List WalkForwardFoldPlan → List Str
tested [] = []
tested (p ∷ ps) = p.test_feature_row_ids ++ tested ps

absent : (x : Str) (xs : List Str) → exists (same x) xs ≡ false → All (λ y. same x y ≡ false) xs
absent x [] h = tt
absent x (y ∷ ys) h = (ground arith, absent x ys (ground arith))

pub all_unique-AllDistinct : (xs : List Str) → all_unique xs ≡ true → AllDistinct xs
unfolding all_unique
all_unique-AllDistinct [] h = tt
all_unique-AllDistinct (x ∷ xs) h =
    (absent x xs (ground arith), all_unique-AllDistinct xs (ground arith))

module _ (fold_digest : FoldMaterial → Str) where
  checked_rows_unique :
      (rows : Rows) {h : ResearchHorizon}
      → checked_rows fold_digest rows ≡ ok h
      → all_unique (map row_id (sort_rows rows)) ≡ true
  unfolding checked_rows
  checked_rows_unique rows h = ground arith

  module _ (ordered : Rows) (horizon : ResearchHorizon) (c : WalkForwardConfig)
      (valid : IsValid c) where
    fold_at-tests :
        (test_start index : ℕ) {p : WalkForwardFoldPlan}
        → fold_at fold_digest ordered horizon c test_start index ≡ ok (some p)
        → p.test_feature_row_ids ≡ map row_id (take c.test_size (drop test_start ordered))
    fold_at-tests test_start index h =
        let m = fold_at-Made fold_digest ordered horizon c test_start index h in
        (plan-fields fold_digest horizon c index m.cutoff m.purged m.train
          (take c.test_size (drop test_start ordered)) m.planned_as).4

    -- The tests from `test_start` on are a subsequence of the rows from there on.
    folds_from-tests :
        (fuel test_start index : ℕ) {ps : List WalkForwardFoldPlan}
        → folds_from fold_digest fuel ordered horizon c test_start index ≡ some (ok ps)
        → Subsequence (tested ps) (map row_id (drop test_start ordered))
    unfolding folds_from
    folds_from-tests zero test_start index h = cc
    folds_from-tests (suc fuel) test_start index {ps} h =
        go (leb (test_start + c.test_size) (length ordered))
          (fold_at fold_digest ordered horizon c test_start index) refl h
          (λ i qs e. folds_from-tests fuel (test_start + effective_step_size c) i {ps = qs} e)
      where
        next : ℕ
        next = test_start + effective_step_size c

        go :
            (b : Bool) (r : Result (Option WalkForwardFoldPlan))
            → fold_at fold_digest ordered horizon c test_start index ≡ r
            → (if b
                then elim r [
                  | raise e ↦ some (raise e)
                  | ok none ↦ folds_from fold_digest fuel ordered horizon c next index
                  | ok (some p) ↦
                      prepend fold_digest p
                        (folds_from fold_digest fuel ordered horizon c next (index + 1))
                ]
                else some (ok []))
              ≡ some (ok ps)
            → ((i : ℕ) (qs : List WalkForwardFoldPlan)
                → folds_from fold_digest fuel ordered horizon c next i ≡ some (ok qs)
                → Subsequence (tested qs) (map row_id (drop next ordered)))
            → Subsequence (tested ps) (map row_id (drop test_start ordered))
        go false r e h ih = let no_more : ps ≡ [] = ground arith in rw no_more over
        go true (raise x) e h ih = cc
        go true (ok none) e h ih =
            Subsequence-drop row_id (effective_step_size c) (drop test_start ordered)
              (rw drop-add at (ih index ps h))
        go true (ok (some p)) e h ih =
            let (qs, rest, split) = prepend-eq-ok fold_digest p _ h in
            let later = rw drop-add at (ih (index + 1) qs rest) in
            rw (split, fold_at-tests test_start index e)
              (Subsequence-take row_id c.test_size (effective_step_size c) (drop test_start ordered)
                valid.apart later)

    prepended :
        (p : WalkForwardFoldPlan) (f : Result (List WalkForwardFoldPlan))
        → (g : Result (List WalkForwardFoldPlan)) × (prepend fold_digest p (some f) ≡ some g)
    prepended p (raise e) = (raise e, refl)
    prepended p (ok ps) = (ok (p ∷ ps), refl)

    -- The loop ends within as many rounds as there are rows, and one more: the fuel is enough.
    pub folds_from-total :
        (fuel test_start index : ℕ)
        → 0 < fuel
        → length ordered < test_start + fuel
        → (r : Result (List WalkForwardFoldPlan)) × (folds_from fold_digest fuel ordered horizon c
              test_start index
            ≡ some r)
    unfolding folds_from
    folds_from-total zero test_start index pos enough = absurd (omega arith)
    folds_from-total (suc fuel) test_start index pos enough =
        go (leb (test_start + c.test_size) (length ordered)) refl
          (fold_at fold_digest ordered horizon c test_start index)
          (λ i more.
            folds_from-total fuel (test_start + effective_step_size c) i
              (let apart = valid.apart in let tests = valid.tests in omega arith)
              (let apart = valid.apart in let tests = valid.tests in omega arith))
      where
        next : ℕ
        next = test_start + effective_step_size c

        go :
            (b : Bool)
            → leb (test_start + c.test_size) (length ordered) ≡ b
            → (r : Result (Option WalkForwardFoldPlan))
            → ((i : ℕ)
                → test_start + c.test_size ≤ length ordered
                → (f : Result (List WalkForwardFoldPlan)) × (folds_from fold_digest fuel ordered
                      horizon c next i
                    ≡ some f))
            → (f : Result (List WalkForwardFoldPlan)) × ((if b
                  then elim r [
                    | raise e ↦ some (raise e)
                    | ok none ↦ folds_from fold_digest fuel ordered horizon c next index
                    | ok (some p) ↦
                        prepend fold_digest p
                          (folds_from fold_digest fuel ordered horizon c next (index + 1))
                  ]
                  else some (ok []))
                ≡ some f)
        go false room r ih = (ok [], refl)
        go true room (raise e) ih = (raise e, refl)
        go true room (ok none) ih = ih index (leb→le _ _ room)
        go true room (ok (some p)) ih =
            let (f, e) = ih (index + 1) (leb→le _ _ room) in rw e (prepended p f)

  -- No row is tested twice, whatever the folds.
  pub build_walk_forward_folds-AllDistinct :
      (rows : Rows) (c : WalkForwardConfig) {ps : List WalkForwardFoldPlan}
      → IsValid c
      → build_walk_forward_folds fold_digest rows c ≡ ok ps
      → AllDistinct (tested ps)
  unfolding build_walk_forward_folds
  build_walk_forward_folds-AllDistinct rows c {ps} valid h =
      let (horizon, checked, made) = >>=-eq-ok (checked_rows fold_digest rows) _ h in
      let ordered = sort_rows rows in
      let (loop, nonempty) =
        some_folds-eq-ok fold_digest
          (folds_from fold_digest (suc (length ordered)) ordered horizon c c.min_train_size 0)
          made in
      let inside =
        folds_from-tests ordered horizon c valid (suc (length ordered)) c.min_train_size 0 loop in
      Subsequence-AllDistinct (Subsequence-drop row_id c.min_train_size ordered inside)
        (all_unique-AllDistinct (map row_id ordered) (checked_rows_unique rows checked))
