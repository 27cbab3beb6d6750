-- ===== src/Store/RoundTrip.antt =====
-- An observation that is written as a payload is read back as it was.
use xrp_inteliggence_x.Base.{
  ℕ, ◌≡◌, refl, sym, subst, lex_at_most, Option, none, some, is_some, List, [], ◌∷◌, String, lookup,
  list_order, nat_order, ℤ, pos, Str, Result, ok, >>=-eq-ok, raise_if, DateTime, aware, utc,
  value_error, arith,
}
use xrp_inteliggence_x.Contract.Observation.{
  RawObservation, HistoricalObservation, AvailabilityPrecision, post_init, sha, check_texts,
  check_fetch_id, optional_utc, check_revision, check_values, check_availability, precedes,
}
use xrp_inteliggence_x.Store.Payload.{
  Json, optional, precision_value, read_precision, field, parse_some, optional_field,
  observation_payload, raw_from_payload, observation_from_payload,
}

abbrev instant_of : Option ℕ → Option DateTime
instant_of none = none
instant_of (some t) = some (aware t)

abbrev integer_of : Option ℕ → Option ℤ
integer_of none = none
integer_of (some n) = some (pos n)

-- The arguments that make an observation again.
abbrev raw_of : HistoricalObservation → RawObservation
raw_of o = record {
  observation_id = o.observation_id;
  dataset = o.dataset;
  record_id = o.record_id;
  provider = o.provider;
  source_id = o.source_id;
  symbol = o.symbol;
  instrument = o.instrument;
  observed_at = aware o.observed_at;
  fetched_at = aware o.fetched_at;
  fetch_id = o.fetch_id;
  payload_sha256 = o.payload_sha256;
  values = some o.values;
  availability_precision = o.availability_precision;
  availability_policy = o.availability_policy;
  available_at = instant_of o.available_at;
  available_date = o.available_date;
  revision_sequence = integer_of o.revision_sequence;
  reconstruction_basis_id = o.reconstruction_basis_id;
}

optional_utc-instant_of : (t : Option ℕ) (f : String) → optional_utc (instant_of t) f ≡ ok t
unfolding optional_utc utc
optional_utc-instant_of none f = refl
optional_utc-instant_of (some t) f = refl

check_revision-integer_of : (n : Option ℕ) → check_revision (integer_of n) ≡ ok n
unfolding check_revision
check_revision-integer_of none = refl
check_revision-integer_of (some n) = refl

sha-same : (s : Str) (f : String) {d : Str} → sha s f ≡ ok d → d ≡ s
unfolding sha
sha-same s f h = ground arith

sha-again : (s : Str) (f : String) {d : Str} → sha s f ≡ ok d → sha d f ≡ ok d
sha-again s f {d} h = subst (λ x. sha x f ≡ ok d) (sym (sha-same s f h)) h

abbrev texts_of : RawObservation → List (Str × String)
texts_of r =
    (r.observation_id, "observation_id")
    ∷ (r.dataset, "dataset")
    ∷ (r.record_id, "record_id")
    ∷ (r.provider, "provider")
    ∷ (r.source_id, "source_id")
    ∷ (r.symbol, "symbol")
    ∷ (r.instrument, "instrument")
    ∷ (r.fetch_id, "fetch_id")
    ∷ (r.availability_policy, "availability_policy")
    ∷ []

ok_injective : {o p : HistoricalObservation} → ok o ≡ ok p → o ≡ p
ok_injective h = cc

abbrev unordered : HistoricalObservation → Result (Unit {0})
unordered o =
    raise_if (precedes o.fetched_at o.available_at)
      (value_error "fetched_at cannot precede available_at")

-- The checks that an observation from the constructor has passed.
record IsMade (o : HistoricalObservation) : Type 0 where
  texts : check_texts (texts_of (raw_of o)) ≡ ok tt
  fetch : check_fetch_id o.fetch_id ≡ ok tt
  hashed : sha o.payload_sha256 "payload_sha256" ≡ ok o.payload_sha256
  available :
      check_availability o.availability_precision
        (is_some o.available_at)
        (is_some o.available_date)
      ≡ ok tt
  ordered : unordered o ≡ ok tt

post_init-IsMade : (r : RawObservation) {o : HistoricalObservation} → post_init r ≡ ok o → IsMade o
unfolding post_init
post_init-IsMade r {o} h =
    let (_, texts, h1) = >>=-eq-ok (check_texts (texts_of r)) _ h in
    let (_, fetch, h2) = >>=-eq-ok (check_fetch_id r.fetch_id) _ h1 in
    let (payload, hashed, h3) = >>=-eq-ok (sha r.payload_sha256 "payload_sha256") _ h2 in
    let (observed, _, h4) = >>=-eq-ok (utc r.observed_at "observed_at") _ h3 in
    let (fetched, _, h5) = >>=-eq-ok (utc r.fetched_at "fetched_at") _ h4 in
    let (available, _, h6) = >>=-eq-ok (optional_utc r.available_at "available_at") _ h5 in
    let (revision, _, h7) = >>=-eq-ok (check_revision r.revision_sequence) _ h6 in
    let (json, _, h8) = >>=-eq-ok (check_values r.values) _ h7 in
    let (_, avail, h9) =
      >>=-eq-ok
        (check_availability r.availability_precision (is_some available) (is_some r.available_date))
        _ h8 in
    let (_, order, h10) =
      >>=-eq-ok
        (raise_if (precedes fetched available)
          (value_error "fetched_at cannot precede available_at"))
        _ h9 in
    subst IsMade (ok_injective h10) (record {
      texts = texts;
      fetch = fetch;
      hashed = sha-again r.payload_sha256 "payload_sha256" hashed;
      available = avail;
      ordered = order;
    })

remade : (o : HistoricalObservation) → IsMade o → post_init (raw_of o) ≡ ok o
unfolding post_init check_values utc
remade o m = rw (
  m.texts,
  m.fetch,
  m.hashed,
  optional_utc-instant_of o.available_at "available_at",
  check_revision-integer_of o.revision_sequence,
  m.available,
  m.ordered,
)

module _ (isoformat : ℕ → Str) (date_isoformat : ℕ → Str) (str_int : ℕ → Str) (repr : Str → Str)
    (fromisoformat : Str → Result DateTime) (date_fromisoformat : Str → Result ℕ)
    (int : Str → Result ℤ) (reads_time : (t : ℕ) → fromisoformat (isoformat t) ≡ ok (aware t))
    (reads_date : (d : ℕ) → date_fromisoformat (date_isoformat d) ≡ ok d)
    (reads_int : (n : ℕ) → int (str_int n) ≡ ok (pos n)) where
  parse_some-time :
      (t : Option ℕ)
      → parse_some fromisoformat (optional (λ t. Json.string (isoformat t)) t) ≡ ok (instant_of t)
  parse_some-time none = refl
  parse_some-time (some t) = rw (reads_time t)

  parse_some-date :
      (d : Option ℕ)
      → parse_some date_fromisoformat (optional (λ d. Json.string (date_isoformat d)) d) ≡ ok d
  parse_some-date none = refl
  parse_some-date (some d) = rw (reads_date d)

  parse_some-int :
      (n : Option ℕ) → parse_some int (optional (λ n. Json.other (str_int n)) n) ≡ ok (integer_of n)
  parse_some-int none = refl
  parse_some-int (some n) = rw (reads_int n)

  parse_some-text : (s : Option Str) → parse_some (λ s. ok s) (optional Json.string s) ≡ ok s
  parse_some-text none = refl
  parse_some-text (some s) = refl

  read_precision-value : (p : AvailabilityPrecision) → read_precision (precision_value p) ≡ ok p
  unfolding read_precision lex_at_most
  read_precision-value AvailabilityPrecision.exact = refl
  read_precision-value AvailabilityPrecision.date_only = refl
  read_precision-value AvailabilityPrecision.inferred_conservative = refl
  read_precision-value AvailabilityPrecision.unknown = refl

  raw_from_payload-raw_of :
      (o : HistoricalObservation)
      → raw_from_payload fromisoformat date_fromisoformat int
          (observation_payload isoformat date_isoformat str_int repr o)
        ≡ ok (raw_of o)
  unfolding raw_from_payload observation_payload field optional_field lookup lex_at_most
  raw_from_payload-raw_of o = rw (
    reads_time o.observed_at,
    reads_time o.fetched_at,
    read_precision-value o.availability_precision,
    parse_some-time o.available_at,
    parse_some-date o.available_date,
    parse_some-int o.revision_sequence,
    parse_some-text o.reconstruction_basis_id,
  )

  -- What the constructor of an observation returns is read back from its payload as it was, if
  -- times, dates and integers are read back as what they were written from.
  pub observation_from_payload-payload :
      (r : RawObservation) {o : HistoricalObservation}
      → post_init r ≡ ok o
      → observation_from_payload fromisoformat date_fromisoformat int
          (observation_payload isoformat date_isoformat str_int repr o)
        ≡ ok o
  unfolding observation_from_payload
  observation_from_payload-payload r {o} h =
      rw (raw_from_payload-raw_of o) (remade o (post_init-IsMade r h))
