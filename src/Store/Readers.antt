-- ===== src/Store/Readers.antt =====
-- `load_observations`, `as_of` and the counts. `json.loads` is a parameter, which gives none where the
-- root of the text is not an object.
use xrp_inteliggence_x.Base.{
  collect, ℤ, Option, none, runtime_error, ℕ, Bool, some, List, [], ◌∷◌, values, keep, length,
  if◌then◌else◌, same, list_order, nat_order, sort_by, Str, Result, raise, ◌>>=◌, value_error,
  DateTime,
}
use xrp_inteliggence_x.Contract.Observation.{HistoricalObservation}
use xrp_inteliggence_x.Contract.Select.{select_as_of}
use xrp_inteliggence_x.Store.Payload.{Payload, observation_from_payload}
use xrp_inteliggence_x.Store.Model.{ObservationRow, Store}
use xrp_inteliggence_x.Store.Partitions.{is_safe_segment}

-- The columns by which the rows are selected and ordered.
abbrev pub loading_order : HistoricalObservation → List Str
loading_order o =
    (o.observed_at ∷ []) ∷ o.record_id ∷ o.provider ∷ o.source_id ∷ o.observation_id ∷ []

abbrev pub selected : Str → Store → List ObservationRow
selected dataset s =
    sort_by (λ r. loading_order r.columns)
      (keep (λ r. same r.columns.dataset dataset) (values s.observations))

module _ (loads : Str → Result (Option Payload)) (fromisoformat : Str → Result DateTime)
    (date_fromisoformat : Str → Result ℕ) (int : Str → Result ℤ) where
  abbrev pub from_root : Option Payload → Result HistoricalObservation
  from_root none = raise (runtime_error "stored observation root must be an object")
  from_root (some payload) = observation_from_payload fromisoformat date_fromisoformat int payload

  -- The body of the loop over the rows.
  unfoldable pub read_row : ObservationRow → Result HistoricalObservation
  read_row r = do payload ← loads r.payload_json; from_root payload

  unfoldable pub load_observations : Str → Store → Result (List HistoricalObservation)
  load_observations dataset s =
      if is_safe_segment dataset
      then collect read_row (selected dataset s)
      else raise (value_error "dataset contains unsafe characters")

  unfoldable pub as_of :
      (HistoricalObservation → Result Str)
      → Str
      → DateTime
      → Bool
      → Store
      → Result (List HistoricalObservation)
  as_of content dataset prediction_time allow_reconstructed s = do
    observations ← load_observations dataset s
    select_as_of content observations prediction_time allow_reconstructed

unfoldable pub raw_blob_count : Store → ℕ
raw_blob_count s = length s.raw_blobs

unfoldable pub fetch_receipt_count : Store → ℕ
fetch_receipt_count s = length s.fetch_receipts

unfoldable pub observation_count : Store → ℕ
observation_count s = length s.observations
