-- ===== src/Oos/Sound.antt =====
-- What a ledger holds to, and that each save keeps it.
use xrp_inteliggence_x.Base.{
  ◌≡◌, ◌⊎◌, refl, sym, subst, true, false, not, ◌||◌, none, some, lookup, insert, Dict,
  HasDistinctKeys, insert-HasDistinctKeys, insert-cases, insert-has, list_order, nat_order,
  Option-cases, inl, inr, is_some, Str, ok, >>=-eq-ok, raise_if, raise_if-eq-ok, arith,
}
use xrp_inteliggence_x.Store.Extends.{IsKept, IsKept-refl, insert-IsKept}
use xrp_inteliggence_x.Oos.Prediction.{PredictionContent, OosPrediction}
use xrp_inteliggence_x.Oos.Outcome.{OutcomeContent, ResolvedOosOutcome}
use xrp_inteliggence_x.Oos.Ledger.{
  PredictionRow, OutcomeRow, Ledger, is_nonzero, prediction_matches, outcome_matches,
  insert_prediction, save_prediction, insert_outcome, save_outcome,
}

module _ (sha256 : Str → Str) (content_json : PredictionContent → Str)
    (outcome_content_json : OutcomeContent → Str) (prediction_json : OosPrediction → Str)
    (outcome_json : ResolvedOosOutcome → Str) where
  -- A stored prediction stands under its identifier, which its content fixes, claims no authority,
  -- and has its own payload.
  pub record IsRaw (id : Str) (r : PredictionRow) : Type 0 where
    pub named : r.columns.prediction_id ≡ id
    pub matched :
        prediction_matches sha256 content_json outcome_content_json prediction_json outcome_json
          r.columns
        ≡ true
    pub uncalibrated : r.columns.content.probability_calibrated ≡ false
    pub without_authority : r.columns.content.decision_authority ≡ false
    pub unweighted : is_nonzero r.columns.content.execution_weight ≡ false
    pub payload : r.payload_json ≡ prediction_json r.columns

  pub record IsResolution (predictions : Dict Str PredictionRow) (id : Str) (r : OutcomeRow)
      : Type 0 where
    pub named : r.columns.content.prediction_id ≡ id
    pub matched :
        outcome_matches sha256 content_json outcome_content_json prediction_json outcome_json
          r.columns
        ≡ true
    pub predicted : is_some (lookup id predictions) ≡ true
    pub payload : r.payload_json ≡ outcome_json r.columns

  pub record IsSound (g : Ledger) : Type 0 where
    pub predictions : (id : Str) (r : PredictionRow) → lookup id g.predictions ≡ some r → IsRaw id r
    pub outcomes :
        (id : Str) (r : OutcomeRow)
        → lookup id g.outcomes ≡ some r
        → IsResolution g.predictions id r
    pub distinct : HasDistinctKeys g.predictions

  -- Whatever the ledger held is still there.
  pub record Keeps (g h : Ledger) : Type 0 where
    pub predictions : (id : Str) → IsKept (lookup id g.predictions) (lookup id h.predictions)
    pub outcomes : (id : Str) → IsKept (lookup id g.outcomes) (lookup id h.outcomes)

  pub Keeps-refl : (g : Ledger) → Keeps g g
  Keeps-refl g = record { predictions = λ id. IsKept-refl _; outcomes = λ id. IsKept-refl _ }

  -- What a call does to the tables when it returns.
  pub record IsSaved (g h : Ledger) : Type 0 where
    pub sound : IsSound h
    pub kept : Keeps g h

  abbrev prediction_row : OosPrediction → PredictionRow
  prediction_row p = record { columns = p; payload_json = prediction_json p }

  -- A call of `insert_prediction` that returns has found the row or adds it.
  insert_prediction-cases :
      (p : OosPrediction) (g : Ledger) {h : Ledger}
      → insert_prediction sha256 content_json outcome_content_json prediction_json outcome_json p g
        ≡ ok h
      → (h ≡ g)
        ⊎ ((lookup p.prediction_id g.predictions ≡ none)
            × (h ≡ record g {
              predictions = insert p.prediction_id (prediction_row p) g.predictions;
            }))
  unfolding insert_prediction
  insert_prediction-cases p g {h} e = elim (Option-cases (lookup p.prediction_id g.predictions)) [
    | inr (row, found) ↦ let e1 = rw (insert_prediction, found) at e in inl (ground arith)
    | inl fresh ↦ let e1 = rw (insert_prediction, fresh) at e in inr (fresh, ground arith)
  ]

  insert_prediction-IsSaved :
      (p : OosPrediction) (g : Ledger) {h : Ledger}
      → IsSound g
      → IsRaw p.prediction_id (prediction_row p)
      → insert_prediction sha256 content_json outcome_content_json prediction_json outcome_json p g
        ≡ ok h
      → IsSaved g h
  insert_prediction-IsSaved p g {h} s raw e = elim (insert_prediction-cases p g e) [
    | inl kept ↦ subst (IsSaved g) (sym kept) (record { sound = s; kept = Keeps-refl g })
    | inr (fresh, made) ↦ subst (IsSaved g) (sym made) (record {
      sound = record {
        predictions = λ id r found.
            elim (insert-cases p.prediction_id id (prediction_row p) r g.predictions found) [
              | inl (same_id, new) ↦
                  subst (λ i. IsRaw i r) (sym same_id) (subst (IsRaw p.prediction_id) new raw)
              | inr old ↦ s.predictions id r old
            ];
        outcomes = λ id r found.
            let o = s.outcomes id r found in
            record {
              named = o.named;
              matched = o.matched;
              predicted =
                  insert-has p.prediction_id id (prediction_row p) g.predictions o.predicted;
              payload = o.payload;
            };
        distinct =
            insert-HasDistinctKeys p.prediction_id (prediction_row p) g.predictions s.distinct;
      };
      kept = record {
        predictions = insert-IsKept p.prediction_id (prediction_row p) g.predictions fresh;
        outcomes = λ id. IsKept-refl _;
      };
    })
  ]

  pub save_prediction-IsSaved :
      (p : OosPrediction) (g : Ledger) {h : Ledger}
      → IsSound g
      → save_prediction sha256 content_json outcome_content_json prediction_json outcome_json p g
        ≡ ok h
      → IsSaved g h
  unfolding save_prediction
  save_prediction-IsSaved p g s e =
      let (u1, claims, e1) =
        >>=-eq-ok (raise_if (p.content.probability_calibrated || p.content.decision_authority) _) _
          e in
      let (u2, weight, e2) = >>=-eq-ok (raise_if (is_nonzero p.content.execution_weight) _) _ e1 in
      let (u3, match, e3) =
        >>=-eq-ok
          (raise_if
            (not (
              prediction_matches sha256 content_json outcome_content_json prediction_json
                outcome_json p))
            _)
          _ e2 in
      insert_prediction-IsSaved p g s
        (record {
          named = refl;
          matched = ground arith;
          uncalibrated = ground arith;
          without_authority = ground arith;
          unweighted = raise_if-eq-ok _ _ weight;
          payload = refl;
        })
        e3

  abbrev outcome_row_of : ResolvedOosOutcome → OutcomeRow
  outcome_row_of o = record { columns = o; payload_json = outcome_json o }

  -- A call of `insert_outcome` that returns has found the row or adds it.
  insert_outcome-cases :
      (o : ResolvedOosOutcome) (g : Ledger) {h : Ledger}
      → insert_outcome sha256 content_json outcome_content_json prediction_json outcome_json o g
        ≡ ok h
      → (h ≡ g)
        ⊎ ((lookup o.content.prediction_id g.outcomes ≡ none)
            × (h ≡ record g {
              outcomes = insert o.content.prediction_id (outcome_row_of o) g.outcomes;
            }))
  unfolding insert_outcome
  insert_outcome-cases o g {h} e = elim (Option-cases (lookup o.content.prediction_id g.outcomes)) [
    | inr (row, found) ↦ let e1 = rw (insert_outcome, found) at e in inl (ground arith)
    | inl fresh ↦ let e1 = rw (insert_outcome, fresh) at e in inr (fresh, ground arith)
  ]

  insert_outcome-IsSaved :
      (o : ResolvedOosOutcome) (g : Ledger) {h : Ledger}
      → IsSound g
      → IsResolution g.predictions o.content.prediction_id (outcome_row_of o)
      → insert_outcome sha256 content_json outcome_content_json prediction_json outcome_json o g
        ≡ ok h
      → IsSaved g h
  insert_outcome-IsSaved o g {h} s resolution e = elim (insert_outcome-cases o g e) [
    | inl kept ↦ subst (IsSaved g) (sym kept) (record { sound = s; kept = Keeps-refl g })
    | inr (fresh, made) ↦ subst (IsSaved g) (sym made) (record {
      sound = record {
        predictions = s.predictions;
        outcomes = λ id r found.
            elim (insert-cases o.content.prediction_id id (outcome_row_of o) r g.outcomes found) [
              | inl (same_id, new) ↦
                  subst (λ i. IsResolution g.predictions i r) (sym same_id)
                    (subst (IsResolution g.predictions o.content.prediction_id) new resolution)
              | inr old ↦ s.outcomes id r old
            ];
        distinct = s.distinct;
      };
      kept = record {
        predictions = λ id. IsKept-refl _;
        outcomes = insert-IsKept o.content.prediction_id (outcome_row_of o) g.outcomes fresh;
      };
    })
  ]

  pub save_outcome-IsSaved :
      (o : ResolvedOosOutcome) (g : Ledger) {h : Ledger}
      → IsSound g
      → save_outcome sha256 content_json outcome_content_json prediction_json outcome_json o g
        ≡ ok h
      → IsSaved g h
  unfolding save_outcome
  save_outcome-IsSaved o g {h} s e =
      let (u1, match, e1) =
        >>=-eq-ok
          (raise_if
            (not (
              outcome_matches sha256 content_json outcome_content_json prediction_json outcome_json
                o))
            _)
          _ e in
      let matched : outcome_matches sha256 content_json outcome_content_json prediction_json
            outcome_json o
          ≡ true =
        ground arith in
      elim (Option-cases (lookup o.content.prediction_id g.predictions)) [
        | inl absent ↦ cc (rw absent at e1)
        | inr (row, found) ↦
            insert_outcome-IsSaved o g s
              (record {
                named = refl;
                matched = matched;
                predicted = rw found refl;
                payload = refl;
              })
              (rw found at e1)
      ]
