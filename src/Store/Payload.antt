-- ===== src/Store/Payload.antt =====
-- `_observation_payload` and `_observation_from_payload`. `isoformat` and `fromisoformat` of datetime
-- and date, and `str` and `int` of an integer, are parameters.
use xrp_inteliggence_x.Base.{
  ℕ, Option, none, some, [], ◌∷◌, if◌then◌else◌, same, list_order, nat_order, lookup, Dict, ℤ, Str,
  str, Result, ok, raise, ◌>>=◌, value_error, runtime_error, key_error, DateTime,
}
use xrp_inteliggence_x.Contract.Observation.{
  RawObservation, HistoricalObservation, AvailabilityPrecision, post_init,
}

-- A value of a JSON object: None, a text, another value by its `str`, or an object by its JSON text
-- and its `str`.
pub data Json : Type 0 where
  null : Json
  string : Str → Json
  other : Str → Json
  object : Str → Str → Json

abbrev pub Payload : Type 0
Payload = Dict Str Json

-- `str(value)`
abbrev pub text_of : Json → Str
text_of Json.null = str "None"
text_of (Json.string s) = s
text_of (Json.other s) = s
text_of (Json.object json s) = s

abbrev pub optional : {A : Type 0} → (A → Json) → Option A → Json
optional f none = Json.null
optional f (some x) = f x

abbrev pub precision_value : AvailabilityPrecision → Str
precision_value AvailabilityPrecision.exact = str "EXACT"
precision_value AvailabilityPrecision.date_only = str "DATE_ONLY"
precision_value AvailabilityPrecision.inferred_conservative = str "INFERRED_CONSERVATIVE"
precision_value AvailabilityPrecision.unknown = str "UNKNOWN"

-- `AvailabilityPrecision(value)`
unfoldable pub read_precision : Str → Result AvailabilityPrecision
read_precision s =
    if same s (str "EXACT")
    then ok AvailabilityPrecision.exact
    else (if same s (str "DATE_ONLY")
        then ok AvailabilityPrecision.date_only
        else (if same s (str "INFERRED_CONSERVATIVE")
            then ok AvailabilityPrecision.inferred_conservative
            else (if same s (str "UNKNOWN")
                then ok AvailabilityPrecision.unknown
                else raise (value_error "AvailabilityPrecision"))))

-- `str(payload[key])`
unfoldable pub field : Str → Payload → Result Str
field key p = elim (lookup key p) [ none ↦ raise key_error | some v ↦ ok (text_of v) ]

-- `parse(str(raw)) if raw is not None else None`
abbrev pub parse_some : {A : Type 0} → (Str → Result A) → Json → Result (Option A)
parse_some parse Json.null = ok none
parse_some parse v = do x ← parse (text_of v); ok (some x)

-- The same, of `raw = payload.get(key)`.
unfoldable pub optional_field : {A : Type 0} → (Str → Result A) → Str → Payload → Result (Option A)
optional_field parse key p = elim (lookup key p) [ none ↦ ok none | some v ↦ parse_some parse v ]

abbrev pub object_text : Option Json → Result Str
object_text (some (Json.object json s)) = ok json
object_text v = raise (runtime_error "stored observation values must be an object")

module _ (isoformat : ℕ → Str) (date_isoformat : ℕ → Str) (str_int : ℕ → Str)
    (repr : Str → Str) where
  unfoldable pub observation_payload : HistoricalObservation → Payload
  observation_payload o =
      (str "observation_id", Json.string o.observation_id)
      ∷ (str "dataset", Json.string o.dataset)
      ∷ (str "record_id", Json.string o.record_id)
      ∷ (str "provider", Json.string o.provider)
      ∷ (str "source_id", Json.string o.source_id)
      ∷ (str "symbol", Json.string o.symbol)
      ∷ (str "instrument", Json.string o.instrument)
      ∷ (str "observed_at", Json.string (isoformat o.observed_at))
      ∷ (str "fetched_at", Json.string (isoformat o.fetched_at))
      ∷ (str "fetch_id", Json.string o.fetch_id)
      ∷ (str "payload_sha256", Json.string o.payload_sha256)
      ∷ (str "values", Json.object o.values (repr o.values))
      ∷ (str "availability_precision", Json.string (precision_value o.availability_precision))
      ∷ (str "availability_policy", Json.string o.availability_policy)
      ∷ (str "available_at", optional (λ t. Json.string (isoformat t)) o.available_at)
      ∷ (str "available_date", optional (λ d. Json.string (date_isoformat d)) o.available_date)
      ∷ (str "revision_sequence", optional (λ n. Json.other (str_int n)) o.revision_sequence)
      ∷ (str "reconstruction_basis_id", optional Json.string o.reconstruction_basis_id)
      ∷ []

module _ (fromisoformat : Str → Result DateTime) (date_fromisoformat : Str → Result ℕ)
    (int : Str → Result ℤ) where
  unfoldable pub raw_from_payload : Payload → Result RawObservation
  raw_from_payload p = do
    json ← object_text (lookup (str "values") p)
    observation_id ← field (str "observation_id") p
    dataset ← field (str "dataset") p
    record_id ← field (str "record_id") p
    provider ← field (str "provider") p
    source_id ← field (str "source_id") p
    symbol ← field (str "symbol") p
    instrument ← field (str "instrument") p
    observed_text ← field (str "observed_at") p
    observed ← fromisoformat observed_text
    fetched_text ← field (str "fetched_at") p
    fetched ← fromisoformat fetched_text
    fetch_id ← field (str "fetch_id") p
    payload_sha256 ← field (str "payload_sha256") p
    precision_text ← field (str "availability_precision") p
    precision ← read_precision precision_text
    policy ← field (str "availability_policy") p
    available_at ← optional_field fromisoformat (str "available_at") p
    available_date ← optional_field date_fromisoformat (str "available_date") p
    revision ← optional_field int (str "revision_sequence") p
    basis ← optional_field (λ s. ok s) (str "reconstruction_basis_id") p
    ok (record {
      observation_id = observation_id;
      dataset = dataset;
      record_id = record_id;
      provider = provider;
      source_id = source_id;
      symbol = symbol;
      instrument = instrument;
      observed_at = observed;
      fetched_at = fetched;
      fetch_id = fetch_id;
      payload_sha256 = payload_sha256;
      values = some json;
      availability_precision = precision;
      availability_policy = policy;
      available_at = available_at;
      available_date = available_date;
      revision_sequence = revision;
      reconstruction_basis_id = basis;
    })

  unfoldable pub observation_from_payload : Payload → Result HistoricalObservation
  observation_from_payload p = do raw ← raw_from_payload p; post_init raw
