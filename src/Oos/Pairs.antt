-- ===== src/Oos/Pairs.antt =====
-- What `resolved_pairs` reads back from a ledger.
use xrp_inteliggence_x.Base.{
  collect-map, IsAscending-map, mem_append_right, mem-map, All-of_map, ◌≡◌, refl, sym, ◌∙◌, ap,
  subst, true, Option, none, some, List, [], ◌∷◌, map, Memᴰ, All, All-map, All-append, All-by_mem,
  lookup, mem_of_lookup, lookup_of_mem, Dict, mem_append_left, sort_by, All-sort_by, mem-sort_by,
  IsAscending, sort_by-IsAscending, list_order, nat_order, is_some, Str, ok, arith,
}
use xrp_inteliggence_x.Oos.Prediction.{PredictionContent, OosPrediction}
use xrp_inteliggence_x.Oos.Outcome.{OutcomeContent, ResolvedOosOutcome}
use xrp_inteliggence_x.Oos.Ledger.{
  PredictionRow, OutcomeRow, Ledger, joined_key, with_outcome, join, read_pair, resolved_pairs,
}
use xrp_inteliggence_x.Oos.Sound.{IsSound}

abbrev pub pair_key : OosPrediction × ResolvedOosOutcome → List Str
pair_key (p, o) = (p.content.prediction_time ∷ []) ∷ p.prediction_id ∷ []

abbrev pair_of : PredictionRow × OutcomeRow → OosPrediction × ResolvedOosOutcome
pair_of (p, o) = (p.columns, o.columns)

module _ (sha256 : Str → Str) (content_json : PredictionContent → Str)
    (outcome_content_json : OutcomeContent → Str) (prediction_json : OosPrediction → Str)
    (outcome_json : ResolvedOosOutcome → Str) (read_prediction : Str → Option OosPrediction)
    (read_outcome : Str → Option ResolvedOosOutcome) where
  -- The pair of an identifier.
  abbrev IsJoined : Ledger → PredictionRow × OutcomeRow → Type 0
  IsJoined g (p, o) =
      (id : Str) × (lookup id g.predictions ≡ some p) × (lookup id g.outcomes ≡ some o)

  abbrev pairs_of : Dict Str OutcomeRow → Dict Str PredictionRow → List (PredictionRow × OutcomeRow)
  pairs_of =
      join sha256 content_json outcome_content_json prediction_json outcome_json read_prediction
        read_outcome

  join-IsJoined :
      (g : Ledger) (rows : Dict Str PredictionRow)
      → All (λ e. lookup e.0 g.predictions ≡ some e.1) rows
      → All (IsJoined g) (pairs_of g.outcomes rows)
  unfolding join
  join-IsJoined g [] h = tt
  join-IsJoined g ((id, p) ∷ rows) (here, later) =
      All-append (IsJoined g) _ (pairs_of g.outcomes rows) (one (lookup id g.outcomes) refl)
        (join-IsJoined g rows later)
    where
      one :
          (r : Option OutcomeRow)
          → lookup id g.outcomes ≡ r
          → All (IsJoined g) (elim r [ none ↦ [] | some o ↦ (p, o) ∷ [] ])
      one none e = tt
      one (some o) e = ((id, here, e), tt)

  join-mem :
      (outcomes : Dict Str OutcomeRow) (rows : Dict Str PredictionRow) {id : Str}
      {p : PredictionRow} {o : OutcomeRow}
      → lookup id outcomes ≡ some o
      → Memᴰ (id, p) rows
      → Memᴰ (p, o) (pairs_of outcomes rows)
  unfolding join
  join-mem outcomes [] found m = elim m [ ]
  join-mem outcomes (row ∷ rows) {id} {p} {o} found (Memᴰ.head e) = mem_append_left _ _ (
      subst
        (λ r.
          Memᴰ (p, o)
            (with_outcome sha256 content_json outcome_content_json prediction_json outcome_json
              read_prediction read_outcome outcomes r))
        e (rw (with_outcome, found) (Memᴰ.head refl)))
  join-mem outcomes (row ∷ rows) found (Memᴰ.tail m) =
      mem_append_right
        (with_outcome sha256 content_json outcome_content_json prediction_json outcome_json
          read_prediction read_outcome outcomes row)
        _ (join-mem outcomes rows found m)

  -- The stored texts are read back as what they were written from, as JSON is.
  pub record IsReadable (g : Ledger) : Type 0 where
    pub predictions :
        (id : Str) (r : PredictionRow)
        → lookup id g.predictions ≡ some r
        → read_prediction r.payload_json ≡ some r.columns
    pub outcomes :
        (id : Str) (r : OutcomeRow)
        → lookup id g.outcomes ≡ some r
        → read_outcome r.payload_json ≡ some r.columns

  -- What is read back for a pair of rows.
  read_pair-pair_of :
      (g : Ledger)
      → IsSound sha256 content_json outcome_content_json prediction_json outcome_json g
      → IsReadable g
      → (j : PredictionRow × OutcomeRow) → IsJoined g j
      → read_pair sha256 content_json outcome_content_json prediction_json outcome_json
          read_prediction read_outcome j
        ≡ ok (pair_of j)
  unfolding read_pair
  read_pair-pair_of g s texts (p, o) (id, predicted, resolved) =
      let raw = s.predictions id p predicted in
      let resolution = s.outcomes id o resolved in
      let a = texts.predictions id p predicted in
      let b = texts.outcomes id o resolved in
      rw (read_pair, a, b, raw.matched, resolution.matched) refl

  -- A pair of a stored prediction and its stored outcome.
  abbrev pub IsPairIn : Ledger → OosPrediction × ResolvedOosOutcome → Type 0
  IsPairIn g (p, o) =
      (lookup p.prediction_id g.predictions
        ≡ some (record { columns = p; payload_json = prediction_json p }))
      × (lookup p.prediction_id g.outcomes
          ≡ some (record { columns = o; payload_json = outcome_json o }))
      × (o.content.prediction_id ≡ p.prediction_id)

  -- All pairs, in the order of time.
  pub record ArePairs (g : Ledger) (pairs : List (OosPrediction × ResolvedOosOutcome))
      : Type 0 where
    pub stored : All (IsPairIn g) pairs
    pub complete :
        (id : Str) (o : OutcomeRow)
        → lookup id g.outcomes ≡ some o
        → (p : OosPrediction) × Memᴰ (p, o.columns) pairs
    pub ordered : IsAscending pair_key pairs

  IsJoined-pair_of :
      (g : Ledger)
      → IsSound sha256 content_json outcome_content_json prediction_json outcome_json g
      → (j : PredictionRow × OutcomeRow) → IsJoined g j
      → IsPairIn g (pair_of j)
  IsJoined-pair_of g s (p, o) (id, predicted, resolved) =
      let raw = s.predictions id p predicted in
      let resolution = s.outcomes id o resolved in
      let payload = raw.payload in
      let name = raw.named in
      let outcome_payload = resolution.payload in
      let row : p ≡ record { columns = p.columns; payload_json = prediction_json p.columns } =
        ground arith in
      let outcome_row : o ≡ record { columns = o.columns; payload_json = outcome_json o.columns } =
        ground arith in
      (
        subst
            (λ i.
              lookup i g.predictions
              ≡ some (record { columns = p.columns; payload_json = prediction_json p.columns }))
            (sym name) (predicted ∙ ap some row),
        subst
            (λ i.
              lookup i g.outcomes
              ≡ some (record { columns = o.columns; payload_json = outcome_json o.columns }))
            (sym name) (resolved ∙ ap some outcome_row),
        resolution.named ∙ sym name,
      )

  -- In a sound ledger, and if its texts are read back as what they were written from, resolved_pairs
  -- returns each stored outcome with its stored prediction, and nothing else, by the time and the
  -- identifier of the prediction.
  pub resolved_pairs-ArePairs :
      (g : Ledger)
      → IsSound sha256 content_json outcome_content_json prediction_json outcome_json g
      → IsReadable g
      → (pairs : List (OosPrediction × ResolvedOosOutcome)) × (resolved_pairs sha256 content_json
            outcome_content_json prediction_json outcome_json read_prediction read_outcome g
          ≡ ok pairs)
        × ArePairs g pairs
  unfolding resolved_pairs
  resolved_pairs-ArePairs g s texts =
      let rows = pairs_of g.outcomes g.predictions in
      let sorted = sort_by key rows in
      let joined : All (IsJoined g) sorted = All-sort_by key (IsJoined g) rows (
        join-IsJoined g g.predictions
          (All-by_mem _ g.predictions (λ e m. lookup_of_mem e.0 e.1 g.predictions s.distinct m))) in
      (
        map pair_of sorted,
        collect-map _ pair_of sorted
            (All-map (IsJoined g) _ sorted (read_pair-pair_of g s texts) joined),
        record {
          stored =
              All-of_map (IsPairIn g) pair_of sorted
                (All-map (IsJoined g) _ sorted (IsJoined-pair_of g s) joined);
          complete = λ id o found.
              let resolution = s.outcomes id o found in
              complete id o found (lookup id g.predictions) refl resolution.predicted;
          ordered = IsAscending-map pair_key pair_of sorted (sort_by-IsAscending key rows);
        },
      )
    where
      key : PredictionRow × OutcomeRow → List Str
      key =
          joined_key sha256 content_json outcome_content_json prediction_json outcome_json
            read_prediction read_outcome

      complete :
          (id : Str) (o : OutcomeRow)
          → lookup id g.outcomes ≡ some o
          → (r : Option PredictionRow) → lookup id g.predictions ≡ r
          → is_some r ≡ true
          → (p : OosPrediction) × Memᴰ
              (p, o.columns)
              (map pair_of (sort_by key (pairs_of g.outcomes g.predictions)))
      complete id o found none e h = cc
      complete id o found (some p) e h = (
        p.columns,
        mem-map pair_of (sort_by key (pairs_of g.outcomes g.predictions)) (
            mem-sort_by key (pairs_of g.outcomes g.predictions)
              (join-mem g.outcomes g.predictions found (mem_of_lookup id p g.predictions e))),
      )
