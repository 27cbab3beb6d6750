-- ===== src/Contract/Observation.antt =====
-- `HistoricalObservation` and `FetchReceipt`: construction, availability and eligibility.
use xrp_inteliggence_x.Base.{
  ℕ, ◌+◌, ◌*◌, Bool, false, not, ◌||◌, Option, none, some, List, [], ◌∷◌, String, ltb, leb, is_some,
  if◌then◌else◌, ℤ, pos, negsuc, Str, str, strip, is_empty, is_sha256, after_prefix, Result, ok,
  raise, ◌>>=◌, ◌>>◌, raise_if, value_error, DateTime, utc,
}

pub data AvailabilityPrecision : Type 0 where
  exact date_only inferred_conservative unknown : AvailabilityPrecision

pub data EligibilityClass : Type 0 where
  strict_replay reconstructed_pit ineligible : EligibilityClass

-- `_text` and `_sha`: the message kept is the field that it names.
unfoldable pub text : Str → String → Result Str
text value field =
    let normalized = strip value in
    do raise_if (is_empty normalized) (value_error field); ok normalized

unfoldable pub sha : Str → String → Result Str
sha value field = do raise_if (not (is_sha256 value)) (value_error field); ok value

-- The arguments of the constructor. `values` is the mapping as its JSON text, `none` where
-- `json.dumps(values, allow_nan=False)` raises.
pub record RawObservation : Type 0 where
  pub observation_id : Str
  pub dataset : Str
  pub record_id : Str
  pub provider : Str
  pub source_id : Str
  pub symbol : Str
  pub instrument : Str
  pub observed_at : DateTime
  pub fetched_at : DateTime
  pub fetch_id : Str
  pub payload_sha256 : Str
  pub values : Option Str
  pub availability_precision : AvailabilityPrecision
  pub availability_policy : Str
  pub available_at : Option DateTime
  pub available_date : Option ℕ
  pub revision_sequence : Option ℤ
  pub reconstruction_basis_id : Option Str

-- An observation that `__post_init__` has let through: its times are instants in UTC, and
-- `available_date` counts days from the first day of the calendar.
pub record HistoricalObservation : Type 0 where
  pub observation_id : Str
  pub dataset : Str
  pub record_id : Str
  pub provider : Str
  pub source_id : Str
  pub symbol : Str
  pub instrument : Str
  pub observed_at : ℕ
  pub fetched_at : ℕ
  pub fetch_id : Str
  pub payload_sha256 : Str
  pub values : Str
  pub availability_precision : AvailabilityPrecision
  pub availability_policy : Str
  pub available_at : Option ℕ
  pub available_date : Option ℕ
  pub revision_sequence : Option ℕ
  pub reconstruction_basis_id : Option Str

unfoldable pub check_texts : List (Str × String) → Result (Unit {0})
unfolding text
check_texts [] = ok tt
check_texts ((value, field) ∷ rest) = do t ← text value field; check_texts rest

unfoldable pub check_fetch_id : Str → Result (Unit {0})
unfolding sha after_prefix
check_fetch_id fetch_id = elim (after_prefix (str "fetch:sha256:") fetch_id) [
  | none ↦ raise (value_error "fetch_id must use fetch:sha256:<digest>")
  | some digest ↦ do s ← sha digest "fetch_id digest"; ok tt
]

unfoldable pub optional_utc : Option DateTime → String → Result (Option ℕ)
optional_utc none field = ok none
optional_utc (some t) field = do u ← utc t field; ok (some u)

unfoldable pub check_revision : Option ℤ → Result (Option ℕ)
check_revision none = ok none
check_revision (some (pos n)) = ok (some n)
check_revision (some (negsuc n)) = raise (value_error "revision_sequence must be non-negative")

unfoldable pub check_values : Option Str → Result Str
check_values none = raise (value_error "Out of range float values are not JSON compliant")
check_values (some json) = ok json

-- The ladder over `availability_precision`, on which of the two times is given.
unfoldable pub check_availability : AvailabilityPrecision → Bool → Bool → Result (Unit {0})
check_availability AvailabilityPrecision.exact at on =
    raise_if (not at || on) (value_error "EXACT requires available_at only")
check_availability AvailabilityPrecision.inferred_conservative at on =
    raise_if (not at || on) (value_error "INFERRED_CONSERVATIVE requires available_at only")
check_availability AvailabilityPrecision.date_only at on =
    raise_if (at || not on) (value_error "DATE_ONLY requires available_date only")
check_availability AvailabilityPrecision.unknown at on =
    raise_if (at || on) (value_error "UNKNOWN cannot carry availability")

abbrev pub precedes : ℕ → Option ℕ → Bool
precedes fetched none = false
precedes fetched (some available) = ltb fetched available

-- `__post_init__`
unfoldable pub post_init : RawObservation → Result HistoricalObservation
post_init r = do
  check_texts (
      (r.observation_id, "observation_id")
      ∷ (r.dataset, "dataset")
      ∷ (r.record_id, "record_id")
      ∷ (r.provider, "provider")
      ∷ (r.source_id, "source_id")
      ∷ (r.symbol, "symbol")
      ∷ (r.instrument, "instrument")
      ∷ (r.fetch_id, "fetch_id")
      ∷ (r.availability_policy, "availability_policy")
      ∷ [])
  check_fetch_id r.fetch_id
  payload ← sha r.payload_sha256 "payload_sha256"
  observed ← utc r.observed_at "observed_at"
  fetched ← utc r.fetched_at "fetched_at"
  available ← optional_utc r.available_at "available_at"
  revision ← check_revision r.revision_sequence
  json ← check_values r.values
  check_availability r.availability_precision (is_some available) (is_some r.available_date)
  raise_if (precedes fetched available) (value_error "fetched_at cannot precede available_at")
  ok (record {
    observation_id = r.observation_id;
    dataset = r.dataset;
    record_id = r.record_id;
    provider = r.provider;
    source_id = r.source_id;
    symbol = r.symbol;
    instrument = r.instrument;
    observed_at = observed;
    fetched_at = fetched;
    fetch_id = r.fetch_id;
    payload_sha256 = payload;
    values = json;
    availability_precision = r.availability_precision;
    availability_policy = r.availability_policy;
    available_at = available;
    available_date = r.available_date;
    revision_sequence = revision;
    reconstruction_basis_id = r.reconstruction_basis_id;
  })

abbrev pub day : ℕ
day = 86400000000

-- Midnight of the next day is the first instant at which a date-only release counts as known. Dates
-- are taken to have a next day, as all but 9999-12-31 have.
abbrev pub boundary_of : AvailabilityPrecision → Option ℕ → Option ℕ → Option ℕ
boundary_of AvailabilityPrecision.exact at on = at
boundary_of AvailabilityPrecision.inferred_conservative at on = at
boundary_of AvailabilityPrecision.date_only at none = none
boundary_of AvailabilityPrecision.date_only at (some date) = some ((date + 1) * day)
boundary_of AvailabilityPrecision.unknown at on = none

abbrev pub availability_boundary : HistoricalObservation → Option ℕ
availability_boundary o = boundary_of o.availability_precision o.available_at o.available_date

-- The truth value of an optional string.
abbrev pub is_given : Option Str → Bool
is_given none = false
is_given (some s) = not (is_empty s)

unfoldable pub classify : Option ℕ → ℕ → Option Str → ℕ → EligibilityClass
classify none fetched basis prediction = EligibilityClass.ineligible
classify (some boundary) fetched basis prediction =
    if ltb prediction boundary
    then EligibilityClass.ineligible
    else (if leb fetched prediction
        then EligibilityClass.strict_replay
        else (if is_given basis
            then EligibilityClass.reconstructed_pit
            else EligibilityClass.ineligible))

-- `eligibility_at` at an instant that is in UTC already.
unfoldable pub eligibility : HistoricalObservation → ℕ → EligibilityClass
eligibility o prediction =
    classify (availability_boundary o) o.fetched_at o.reconstruction_basis_id prediction

unfoldable pub eligibility_at : HistoricalObservation → DateTime → Result EligibilityClass
eligibility_at o prediction_time = do
  prediction ← utc prediction_time "prediction_time"
  ok (eligibility o prediction)
