-- ===== src/Oos/Ledger.antt =====
-- `OOSPredictionLedgerV1`: its tables `oos_metadata`, `oos_predictions` and `oos_outcomes` with their
-- keys and constraints. A method that raises leaves the tables as they were, since the connection
-- rolls back. A payload's text is read back by `read_prediction` and `read_outcome`, which stand for
-- `json.loads`.
use xrp_inteliggence_x.Base.{
  ℕ, Bool, true, false, not, ◌&&◌, ◌||◌, Option, none, some, List, [], ◌∷◌, ◌++◌, exists, ◌==◌,
  same, list_order, nat_order, sort_by, Dict, lookup, insert, values, length, ltb_ℤ, ℤ, pos, Str,
  str, Result, ok, raise, ◌>>◌, raise_if, collect, value_error, runtime_error, integrity_error,
}
use xrp_inteliggence_x.Oos.Prediction.{Float, finite, PredictionContent, OosPrediction}
use xrp_inteliggence_x.Oos.Outcome.{OutcomeContent, ResolvedOosOutcome}

-- Rows of `oos_predictions`, by `prediction_id`. The prediction stands for its own columns.
pub record PredictionRow : Type 0 where
  pub columns : OosPrediction
  pub payload_json : Str

-- Rows of `oos_outcomes`, by `prediction_id`, which is unique.
pub record OutcomeRow : Type 0 where
  pub columns : ResolvedOosOutcome
  pub payload_json : Str

pub record Ledger : Type 0 where
  pub metadata : Dict Str Str
  pub predictions : Dict Str PredictionRow
  pub outcomes : Dict Str OutcomeRow

abbrev pub new_database : Ledger
new_database = record { metadata = []; predictions = []; outcomes = [] }

abbrev is_other : Option Str → Str → Bool
is_other none expected = false
is_other (some found) expected = not (same found expected)

-- `INSERT … ON CONFLICT(key) DO NOTHING`
abbrev insert_new : Str → Str → Dict Str Str → Dict Str Str
insert_new key value d = elim (lookup key d) [ none ↦ insert key value d | some found ↦ d ]

-- `__init__` with `_initialize`
unfoldable pub initialize : ℤ → Ledger → Result Ledger
initialize busy_timeout_ms g = do
  raise_if (ltb_ℤ busy_timeout_ms (pos 1)) (value_error "busy_timeout_ms must be positive")
  raise_if (is_other (lookup (str "ledger_role") g.metadata) (str "OOS_PREDICTION_LEDGER"))
      (value_error "database already belongs to another OOS ledger role")
  raise_if (is_other (lookup (str "schema_version") g.metadata) (str "1"))
      (value_error "unsupported OOS ledger schema version")
  ok (record g {
    metadata =
        insert_new (str "schema_version") (str "1")
          (insert_new (str "ledger_role") (str "OOS_PREDICTION_LEDGER") g.metadata);
  })

-- `x != 0.0`
abbrev pub is_nonzero : Float → Bool
is_nonzero (finite (pos n)) = not (n == 0)
is_nonzero x = true

module _ (sha256 : Str → Str) (content_json : PredictionContent → Str)
    (outcome_content_json : OutcomeContent → Str) (prediction_json : OosPrediction → Str)
    (outcome_json : ResolvedOosOutcome → Str) where
  -- `_content_identity_matches` on the payload of a prediction, and on that of an outcome.
  unfoldable pub prediction_matches : OosPrediction → Bool
  prediction_matches p =
      same p.prediction_id (str "oos-prediction:sha256:" ++ sha256 (content_json p.content))
      && same p.prediction_sha256 (sha256 (content_json p.content))

  unfoldable pub outcome_matches : ResolvedOosOutcome → Bool
  outcome_matches o =
      same o.outcome_id (str "oos-outcome:sha256:" ++ sha256 (outcome_content_json o.content))
      && same o.outcome_sha256 (sha256 (outcome_content_json o.content))

  -- The statements of `save_prediction`.
  unfoldable pub insert_prediction : OosPrediction → Ledger → Result Ledger
  insert_prediction p g = elim (lookup p.prediction_id g.predictions) [
    | some row ↦ do
      raise_if (not (same row.payload_json (prediction_json p)))
          (value_error "prediction_id collision with different payload")
      ok g
    | none ↦ do
      raise_if
          (exists (λ r. same r.columns.prediction_sha256 p.prediction_sha256)
            (values g.predictions))
          (integrity_error "oos_predictions.prediction_sha256")
      ok (record g {
        predictions =
            insert p.prediction_id (record { columns = p; payload_json = prediction_json p })
              g.predictions;
      })
  ]

  unfoldable pub save_prediction : OosPrediction → Ledger → Result Ledger
  save_prediction p g = do
    raise_if (p.content.probability_calibrated || p.content.decision_authority)
        (value_error "OOS raw prediction cannot claim calibrated/decision authority")
    raise_if (is_nonzero p.content.execution_weight)
        (value_error "OOS raw prediction execution_weight must remain zero")
    raise_if (not (prediction_matches p))
        (value_error "prediction content-addressed identity does not match payload")
    insert_prediction p g

  -- The statements of `save_outcome` after the prediction is found.
  unfoldable pub insert_outcome : ResolvedOosOutcome → Ledger → Result Ledger
  insert_outcome o g = elim (lookup o.content.prediction_id g.outcomes) [
    | some row ↦ do
      raise_if (not (same row.payload_json (outcome_json o)))
          (value_error "prediction outcome is immutable once resolved")
      ok g
    | none ↦ do
      raise_if
          (exists
            (λ r.
              same r.columns.outcome_id o.outcome_id
              || same r.columns.outcome_sha256 o.outcome_sha256)
            (values g.outcomes))
          (integrity_error "oos_outcomes.outcome_id")
      ok (record g {
        outcomes =
            insert o.content.prediction_id (record { columns = o; payload_json = outcome_json o })
              g.outcomes;
      })
  ]

  unfoldable pub save_outcome : ResolvedOosOutcome → Ledger → Result Ledger
  save_outcome o g = do
    raise_if (not (outcome_matches o))
        (value_error "outcome content-addressed identity does not match payload")
    elim (lookup o.content.prediction_id g.predictions) [
      | none ↦ raise (value_error "outcome prediction_id is not present in the OOS ledger")
      | some row ↦ insert_outcome o g
    ]

  unfoldable pub prediction_count : Ledger → ℕ
  prediction_count g = length g.predictions

  unfoldable pub outcome_count : Ledger → ℕ
  outcome_count g = length g.outcomes

  module _ (read_prediction : Str → Option OosPrediction)
      (read_outcome : Str → Option ResolvedOosOutcome) where
    -- A joined row of `resolved_pairs`, by time and identifier of its prediction.
    abbrev pub Joined : Type 0
    Joined = PredictionRow × OutcomeRow

    abbrev pub joined_key : Joined → List Str
    joined_key (p, o) = (p.columns.content.prediction_time ∷ []) ∷ p.columns.prediction_id ∷ []

    -- `JOIN oos_outcomes o ON o.prediction_id = p.prediction_id`
    abbrev pub with_outcome : Dict Str OutcomeRow → Str × PredictionRow → List Joined
    with_outcome outcomes (id, p) = elim (lookup id outcomes) [ none ↦ [] | some o ↦ (p, o) ∷ [] ]

    unfoldable pub join : Dict Str OutcomeRow → Dict Str PredictionRow → List Joined
    join outcomes [] = []
    join outcomes (row ∷ rows) = with_outcome outcomes row ++ join outcomes rows

    abbrev pub require_outcome :
        OosPrediction → Option ResolvedOosOutcome → Result (OosPrediction × ResolvedOosOutcome)
    require_outcome p none = raise (runtime_error "stored OOS ledger payload must be an object")
    require_outcome p (some o) = do
      raise_if (not (prediction_matches p))
          (runtime_error "stored OOS prediction content-addressed identity is corrupt")
      raise_if (not (outcome_matches o))
          (runtime_error "stored OOS outcome content-addressed identity is corrupt")
      ok (p, o)

    -- The body of the loop of `resolved_pairs`.
    unfoldable pub read_pair : Joined → Result (OosPrediction × ResolvedOosOutcome)
    read_pair (p, o) = elim (read_prediction p.payload_json) [
      | none ↦ raise (runtime_error "stored OOS ledger payload must be an object")
      | some prediction ↦ require_outcome prediction (read_outcome o.payload_json)
    ]

    unfoldable pub resolved_pairs : Ledger → Result (List (OosPrediction × ResolvedOosOutcome))
    resolved_pairs g = collect read_pair (sort_by joined_key (join g.outcomes g.predictions))
