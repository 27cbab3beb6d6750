-- ===== src/WalkForward/Rows.antt =====
-- `LabeledFeatureRow`, `WalkForwardConfig` and `join_labeled_rows`. Of feature rows and labels only
-- what this module reads is kept.
use xrp_inteliggence_x.Base.{
  ℕ, Bool, true, false, not, ◌&&◌, Option, none, some, List, [], ◌∷◌, map, ltb, leb, ◌==◌, keep,
  every, exists, same, list_order, nat_order, sort_by, Dict, keys, lookup, insert, ℤ, pos, ltb_ℤ,
  pos_part, Str, Result, ok, raise, ◌>>=◌, ◌>>◌, raise_if, collect, value_error, key_error, is_some,
  is_nil,
}

pub data ResearchHorizon : Type 0 where
  h1 h4 d1 w1 m1 m3 y1 : ResearchHorizon

abbrev pub horizon_code : ResearchHorizon → ℕ
horizon_code ResearchHorizon.h1 = 0
horizon_code ResearchHorizon.h4 = 1
horizon_code ResearchHorizon.d1 = 2
horizon_code ResearchHorizon.w1 = 3
horizon_code ResearchHorizon.m1 = 4
horizon_code ResearchHorizon.m3 = 5
horizon_code ResearchHorizon.y1 = 6

abbrev pub same_horizon : ResearchHorizon → ResearchHorizon → Bool
same_horizon a b = horizon_code a == horizon_code b

pub record FeatureRow : Type 0 where
  pub feature_row_id : Str
  pub prediction_time : ℕ
  pub horizon : ResearchHorizon

pub record OutcomeLabel : Type 0 where
  pub label_id : Str
  pub feature_row_id : Str
  pub prediction_time : ℕ
  pub horizon : ResearchHorizon
  pub label_end_at : ℕ
  pub resolved_at : ℕ

pub record LabeledFeatureRow : Type 0 where
  pub feature : FeatureRow
  pub label : OutcomeLabel

-- `LabeledFeatureRow.__post_init__`
unfoldable pub labeled_row : FeatureRow → OutcomeLabel → Result LabeledFeatureRow
labeled_row f l = do
  raise_if (not (same f.feature_row_id l.feature_row_id))
      (value_error "feature and label must reference the same feature_row_id")
  raise_if (not (f.prediction_time == l.prediction_time))
      (value_error "feature and label prediction_time must match")
  raise_if (not (same_horizon f.horizon l.horizon))
      (value_error "feature and label horizon must match")
  raise_if (leb l.label_end_at f.prediction_time)
      (value_error "label horizon must end after prediction_time")
  raise_if (ltb l.resolved_at l.label_end_at)
      (value_error "label cannot resolve before label_end_at")
  ok (record { feature = f; label = l })

pub data WalkForwardMode : Type 0 where
  expanding rolling : WalkForwardMode

-- The arguments of the configuration; `embargo` is in microseconds.
pub record RawWalkForwardConfig : Type 0 where
  pub min_train_size : ℤ
  pub test_size : ℤ
  pub step_size : Option ℤ
  pub mode : WalkForwardMode
  pub max_train_size : Option ℤ
  pub embargo : ℤ

pub record WalkForwardConfig : Type 0 where
  pub min_train_size : ℕ
  pub test_size : ℕ
  pub step_size : Option ℕ
  pub mode : WalkForwardMode
  pub max_train_size : Option ℕ
  pub embargo : ℕ

abbrev pub or_else {ℓ} : {A : Type ℓ} → Option A → A → A
or_else none a = a
or_else (some b) a = b

abbrev pub optional_part : Option ℤ → Option ℕ
optional_part none = none
optional_part (some n) = some (pos_part n)

unfoldable pub check_mode : WalkForwardMode → ℤ → Option ℤ → Result (Unit {0})
check_mode WalkForwardMode.expanding min_train_size max_train_size =
    raise_if (is_some max_train_size) (value_error "max_train_size is only valid in rolling mode")
check_mode WalkForwardMode.rolling min_train_size none =
    raise (value_error "rolling mode requires max_train_size")
check_mode WalkForwardMode.rolling min_train_size (some max_train_size) =
    raise_if (ltb_ℤ max_train_size min_train_size)
      (value_error "max_train_size must be >= min_train_size")

-- `WalkForwardConfig.__post_init__`
unfoldable pub walk_forward_config : RawWalkForwardConfig → Result WalkForwardConfig
walk_forward_config c = do
  raise_if (ltb_ℤ c.min_train_size (pos 1)) (value_error "min_train_size must be positive")
  raise_if (ltb_ℤ c.test_size (pos 1)) (value_error "test_size must be positive")
  raise_if (ltb_ℤ (or_else c.step_size c.test_size) c.test_size)
      (value_error "step_size must be >= test_size to prevent overlapping test folds")
  raise_if (ltb_ℤ c.embargo (pos 0)) (value_error "embargo cannot be negative")
  check_mode c.mode c.min_train_size c.max_train_size
  ok (record {
    min_train_size = pos_part c.min_train_size;
    test_size = pos_part c.test_size;
    step_size = optional_part c.step_size;
    mode = c.mode;
    max_train_size = optional_part c.max_train_size;
    embargo = pos_part c.embargo;
  })

abbrev pub effective_step_size : WalkForwardConfig → ℕ
effective_step_size c = or_else c.step_size c.test_size

-- The sort key: the prediction time, then the identifier.
abbrev pub row_key : LabeledFeatureRow → List Str
row_key r = (r.feature.prediction_time ∷ []) ∷ r.feature.feature_row_id ∷ []

abbrev pub row_id : LabeledFeatureRow → Str
row_id r = r.feature.feature_row_id

unfoldable pub sort_rows : List LabeledFeatureRow → List LabeledFeatureRow
sort_rows rows = sort_by row_key rows

-- `len(xs) == len(set(xs))`
unfoldable pub all_unique : List Str → Bool
all_unique [] = true
all_unique (x ∷ xs) = not (exists (same x) xs) && all_unique xs

unfoldable pub single_horizon : List LabeledFeatureRow → Bool
single_horizon [] = false
single_horizon (r ∷ rows) = every (λ x. same_horizon r.feature.horizon x.feature.horizon) rows

-- The two checks that both functions make on the sorted rows.
unfoldable pub check_ordered : List LabeledFeatureRow → Result (Unit {0})
check_ordered ordered = do
  raise_if (not (single_horizon ordered))
      (value_error "walk-forward rows must contain exactly one research horizon")
  raise_if (not (all_unique (map (λ r. r.feature.prediction_time ∷ []) ordered)))
      (value_error "prediction_time values must be unique within a horizon")

unfoldable pub features_by_id : List FeatureRow → Dict Str FeatureRow → Result (Dict Str FeatureRow)
features_by_id [] d = ok d
features_by_id (f ∷ fs) d = do
  raise_if (is_some (lookup f.feature_row_id d)) (value_error "duplicate feature_row_id: ")
  features_by_id fs (insert f.feature_row_id f d)

unfoldable pub labels_by_id :
    List OutcomeLabel → Dict Str OutcomeLabel → Result (Dict Str OutcomeLabel)
labels_by_id [] d = ok d
labels_by_id (l ∷ ls) d = do
  raise_if (is_some (lookup l.feature_row_id d))
      (value_error "duplicate label for feature_row_id: ")
  labels_by_id ls (insert l.feature_row_id l d)

-- The keys of one dict that another lacks.
unfoldable pub missing_from {ℓ κ} : {A : Type ℓ} {B : Type κ} → Dict Str A → Dict Str B → List Str
missing_from d e = keep (λ k. not (is_some (lookup k e))) (keys d)

abbrev pub mismatch : List Str → List Str → Result (Unit {0})
mismatch [] [] = ok tt
mismatch (m ∷ ms) [] = raise (value_error "missing labels for ")
mismatch [] (o ∷ os) = raise (value_error "orphan labels for ")
mismatch (m ∷ ms) (o ∷ os) = raise (value_error "missing labels for ; orphan labels for ")

unfoldable pub join_one :
    Dict Str FeatureRow → Dict Str OutcomeLabel → Str → Result LabeledFeatureRow
join_one fs ls k = elim (lookup k fs) [
  | none ↦ raise key_error
  | some f ↦ elim (lookup k ls) [ none ↦ raise key_error | some l ↦ labeled_row f l ]
]

unfoldable pub join_labeled_rows :
    List FeatureRow → List OutcomeLabel → Result (List LabeledFeatureRow)
join_labeled_rows features labels = do
  raise_if (is_nil features) (value_error "features cannot be empty")
  raise_if (is_nil labels) (value_error "labels cannot be empty")
  feature_by_id ← features_by_id features []
  label_by_feature_id ← labels_by_id labels []
  mismatch (missing_from feature_by_id label_by_feature_id)
      (missing_from label_by_feature_id feature_by_id)
  joined ← collect (join_one feature_by_id label_by_feature_id) (keys feature_by_id)
  check_ordered (sort_rows joined)
  ok (sort_rows joined)
