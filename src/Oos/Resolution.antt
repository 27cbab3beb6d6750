-- ===== src/Oos/Resolution.antt =====
-- What an outcome that is resolved says of its prediction and its label.
use xrp_inteliggence_x.Base.{◌≡◌, ◌≤◌, true, list_order, nat_order, ok, aware}
use xrp_inteliggence_x.WalkForward.Rows.{same_horizon}
use xrp_inteliggence_x.Oos.Prediction.{OosPrediction}
use xrp_inteliggence_x.Oos.Outcome.{OutcomeLabelLike, ResolvedOosOutcome, event_actual}

-- The outcome of a prediction by the label of its own row, known no earlier than the label ends.
pub record IsOutcomeOf (p : OosPrediction) (l : OutcomeLabelLike) (o : ResolvedOosOutcome)
    : Type 0 where
  pub predicted : o.content.prediction_id ≡ p.prediction_id
  pub row : l.feature_row_id ≡ p.content.feature_row_id
  pub time : l.prediction_time ≡ aware p.content.prediction_time
  pub horizon : same_horizon p.content.horizon l.horizon ≡ true
  pub end : l.label_end_at ≡ aware o.content.label_end_at
  pub resolution : l.resolved_at ≡ aware o.content.resolved_at
  pub known : o.content.label_end_at ≤ o.content.resolved_at
  pub event : event_actual p.content.event_key l ≡ ok o.content.actual
