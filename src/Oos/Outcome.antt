-- ===== src/Oos/Outcome.antt =====
-- `resolve_oos_outcome`: what became of a prediction, by the label of its row.
use xrp_inteliggence_x.Base.{
  ℕ, Bool, false, not, none, some, ◌++◌, ltb, ◌==◌, same, list_order, nat_order, Dict, lookup, pos,
  ltb_ℤ, if◌then◌else◌, Str, str, after_prefix, Result, ok, raise, ◌>>=◌, ◌>>◌, raise_if,
  value_error, DateTime, utc,
}
use xrp_inteliggence_x.Contract.Observation.{text}
use xrp_inteliggence_x.WalkForward.Rows.{ResearchHorizon, same_horizon}
use xrp_inteliggence_x.Oos.Prediction.{Float, nan, infinite, finite, OosPrediction}

-- `FutureOutcomeLabelLike`
pub record OutcomeLabelLike : Type 0 where
  pub label_id : Str
  pub feature_row_id : Str
  pub prediction_time : DateTime
  pub horizon : ResearchHorizon
  pub label_end_at : DateTime
  pub resolved_at : DateTime
  pub future_return : Float
  pub positive_return_touches : Dict Str Bool
  pub negative_return_touches : Dict Str Bool
  pub absolute_price_touches : Dict Str Bool

-- The fields that are hashed.
pub record OutcomeContent : Type 0 where
  pub prediction_id : Str
  pub label_id : Str
  pub feature_row_id : Str
  pub event_key : Str
  pub horizon : ResearchHorizon
  pub prediction_time : ℕ
  pub label_end_at : ℕ
  pub resolved_at : ℕ
  pub actual : Bool

pub record ResolvedOosOutcome : Type 0 where
  pub outcome_id : Str
  pub outcome_sha256 : Str
  pub content : OutcomeContent

-- `x > 0`
abbrev pub is_positive : Float → Bool
is_positive nan = false
is_positive (infinite positive) = positive
is_positive (finite z) = ltb_ℤ (pos 0) z

abbrev pub touched : Dict Str Bool → Str → Result Bool
touched barriers key = elim (lookup key barriers) [
  | none ↦ raise (value_error "label does not contain event barrier")
  | some hit ↦ ok hit
]

-- `_event_actual`
unfoldable pub event_actual : Str → OutcomeLabelLike → Result Bool
event_actual event l =
    if same event (str "return_gt_0")
    then ok (is_positive l.future_return)
    else elim (after_prefix (str "touch_return_up:") event) [
      | some key ↦ touched l.positive_return_touches key
      | none ↦ elim (after_prefix (str "touch_return_down:") event) [
        | some key ↦ touched l.negative_return_touches key
        | none ↦ elim (after_prefix (str "touch_price:") event) [
          | some key ↦ touched l.absolute_price_touches key
          | none ↦ raise (value_error "unsupported event_key")
        ]
      ]
    ]

module _ (sha256 : Str → Str) (outcome_content_json : OutcomeContent → Str) where
  abbrev pub identified_outcome : OutcomeContent → ResolvedOosOutcome
  identified_outcome c = record {
    outcome_id = str "oos-outcome:sha256:" ++ sha256 (outcome_content_json c);
    outcome_sha256 = sha256 (outcome_content_json c);
    content = c;
  }

  -- `resolve_oos_outcome`
  unfoldable pub resolve_outcome : OosPrediction → OutcomeLabelLike → Result ResolvedOosOutcome
  resolve_outcome p l = do
    raise_if (not (same p.content.feature_row_id l.feature_row_id))
        (value_error "prediction and label feature_row_id must match")
    predicted ← utc l.prediction_time "label.prediction_time"
    raise_if (not (p.content.prediction_time == predicted))
        (value_error "prediction and label prediction_time must match")
    raise_if (not (same_horizon p.content.horizon l.horizon))
        (value_error "prediction and label horizon must match")
    label_end ← utc l.label_end_at "label.label_end_at"
    resolved ← utc l.resolved_at "label.resolved_at"
    raise_if (ltb resolved label_end) (value_error "outcome cannot resolve before label_end_at")
    actual ← event_actual p.content.event_key l
    label_id ← text l.label_id "label_id"
    ok (
        identified_outcome (record {
          prediction_id = p.prediction_id;
          label_id = label_id;
          feature_row_id = p.content.feature_row_id;
          event_key = p.content.event_key;
          horizon = p.content.horizon;
          prediction_time = p.content.prediction_time;
          label_end_at = label_end;
          resolved_at = resolved;
          actual = actual;
        }))
