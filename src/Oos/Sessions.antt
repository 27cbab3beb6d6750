-- ===== src/Oos/Sessions.antt =====
-- Any sequence of saves.
use xrp_inteliggence_x.Base.{
  ◌≡◌, refl, List, [], ◌∷◌, lookup, list_order, nat_order, Str, Result, ok, raise,
}
use xrp_inteliggence_x.Store.Extends.{IsKept-trans}
use xrp_inteliggence_x.Oos.Prediction.{PredictionContent, OosPrediction}
use xrp_inteliggence_x.Oos.Outcome.{OutcomeContent, ResolvedOosOutcome}
use xrp_inteliggence_x.Oos.Ledger.{Ledger, new_database, save_prediction, save_outcome}
use xrp_inteliggence_x.Oos.Sound.{
  IsSound, Keeps, Keeps-refl, IsSaved, save_prediction-IsSaved, save_outcome-IsSaved,
}

-- A call of a method that writes.
pub data Operation : Type 0 where
  predict : OosPrediction → Operation
  resolve : ResolvedOosOutcome → Operation

-- The tables after a call, which rolls back if it raises.
abbrev pub after : Ledger → Result Ledger → Ledger
after g (raise e) = g
after g (ok h) = h

module _ (sha256 : Str → Str) (content_json : PredictionContent → Str)
    (outcome_content_json : OutcomeContent → Str) (prediction_json : OosPrediction → Str)
    (outcome_json : ResolvedOosOutcome → Str) where
  unfoldable pub step : Operation → Ledger → Ledger
  step (predict p) g =
      after g
        (save_prediction sha256 content_json outcome_content_json prediction_json outcome_json p g)
  step (resolve o) g =
      after g
        (save_outcome sha256 content_json outcome_content_json prediction_json outcome_json o g)

  unfoldable pub run : List Operation → Ledger → Ledger
  run [] g = g
  run (o ∷ os) g = run os (step o g)

  abbrev Sound : Ledger → Type 0
  Sound = IsSound sha256 content_json outcome_content_json prediction_json outcome_json

  abbrev Kept : Ledger → Ledger → Type 0
  Kept = Keeps sha256 content_json outcome_content_json prediction_json outcome_json

  abbrev Saved : Ledger → Ledger → Type 0
  Saved = IsSaved sha256 content_json outcome_content_json prediction_json outcome_json

  Keeps-trans : (f g h : Ledger) → Kept f g → Kept g h → Kept f h
  Keeps-trans f g h a b = record {
    predictions =
        λ id. IsKept-trans _ (lookup id g.predictions) _ (a.predictions id) (b.predictions id);
    outcomes = λ id. IsKept-trans _ (lookup id g.outcomes) _ (a.outcomes id) (b.outcomes id);
  }

  after-IsSaved :
      (g : Ledger) (r : Result Ledger)
      → Sound g
      → ((h : Ledger) → r ≡ ok h → Saved g h)
      → Saved g (after g r)
  after-IsSaved g (raise e) s saved = record {
    sound = s;
    kept = Keeps-refl sha256 content_json outcome_content_json prediction_json outcome_json g;
  }
  after-IsSaved g (ok h) s saved = saved h refl

  step-IsSaved : (o : Operation) (g : Ledger) → Sound g → Saved g (step o g)
  unfolding step
  step-IsSaved (predict p) g s = after-IsSaved g _ s (λ h e.
      save_prediction-IsSaved sha256 content_json outcome_content_json prediction_json outcome_json
        p g s e)
  step-IsSaved (resolve o) g s = after-IsSaved g _ s (λ h e.
      save_outcome-IsSaved sha256 content_json outcome_content_json prediction_json outcome_json o g
        s e)

  new_database-IsSound : Sound new_database
  unfolding lookup
  new_database-IsSound = record {
    predictions = λ id r found. cc;
    outcomes = λ id r found. cc;
    distinct = tt;
  }

  run_from-IsSaved : (os : List Operation) (g : Ledger) → Sound g → Saved g (run os g)
  unfolding run
  run_from-IsSaved [] g s = record {
    sound = s;
    kept = Keeps-refl sha256 content_json outcome_content_json prediction_json outcome_json g;
  }
  run_from-IsSaved (o ∷ os) g s =
      let here = step-IsSaved o g s in
      let later = run_from-IsSaved os (step o g) here.sound in
      record {
        sound = later.sound;
        kept = Keeps-trans g (step o g) (run os (step o g)) here.kept later.kept;
      }

  -- Whatever is saved in a new ledger, in whatever order and whether the calls return or raise, each
  -- stored prediction stands under its own identifier, which is the digest of its content, claims no
  -- calibration, no authority and no weight, and each stored outcome is the only one of its
  -- prediction, which is stored too, and has the digest of its content. No save changes or drops a
  -- row.
  pub run-IsSound :
      (earlier later : List Operation)
      → Sound (run earlier new_database)
        × Kept (run earlier new_database) (run later (run earlier new_database))
  run-IsSound earlier later =
      let first = run_from-IsSaved earlier new_database new_database-IsSound in
      let second = run_from-IsSaved later (run earlier new_database) first.sound in
      (first.sound, second.kept)
