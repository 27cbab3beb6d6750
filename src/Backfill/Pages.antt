-- ===== src/Backfill/Pages.antt =====
-- `BackfillWindowV2`, `BackfillPageV2` and `BackfillRunnerV2._validate_page`. A cursor is its canonical
-- JSON text.
use xrp_inteliggence_x.Base.{
  ℕ, ◌≡◌, refl, ◌↔◌, Bool, true, false, not, ◌&&◌, Option, none, some, List, [], ◌∷◌, leb, ◌==◌,
  All, is_nil, is_some, same, same_eq, same_refl, list_order, nat_order, ℤ, pos, ltb_ℤ, pos_part,
  Str, Result, ok, ◌>>=◌, ◌>>◌, >>=-eq-ok, raise_if, value_error, DateTime, utc, arith,
}
use xrp_inteliggence_x.Contract.Observation.{HistoricalObservation}
use xrp_inteliggence_x.Store.Model.{FetchReceipt}

pub record RawBackfillWindow : Type 0 where
  pub start : DateTime
  pub end : DateTime
  pub interval_seconds : ℤ

pub record BackfillWindow : Type 0 where
  pub start : ℕ
  pub end : ℕ
  pub interval_seconds : ℕ

-- `BackfillWindowV2.__post_init__`
unfoldable pub backfill_window : RawBackfillWindow → Result BackfillWindow
backfill_window w = do
  start ← utc w.start "start"
  end ← utc w.end "end"
  raise_if (leb end start) (value_error "backfill end must be later than start")
  raise_if (not (ltb_ℤ (pos 0) w.interval_seconds))
      (value_error "interval_seconds must be positive")
  ok (record { start = start; end = end; interval_seconds = pos_part w.interval_seconds })

pub record BackfillPage : Type 0 where
  pub raw_payload : Str
  pub receipt : FetchReceipt
  pub observations : List HistoricalObservation
  pub partition_key : Option Str
  pub next_cursor : Option Str
  pub completed : Bool

-- A text that is neither absent nor empty.
abbrev pub is_text : Option Str → Bool
is_text none = false
is_text (some s) = not (is_nil s)

-- `BackfillPageV2.__post_init__`
unfoldable pub backfill_page : (Str → Str) → BackfillPage → Result BackfillPage
backfill_page sha256 p = do
  raise_if (is_nil p.raw_payload) (value_error "backfill page raw_payload cannot be empty")
  raise_if (not (same (sha256 p.raw_payload) p.receipt.payload_sha256))
      (value_error "backfill page receipt digest does not match raw payload")
  raise_if (not (is_nil p.observations) && not (is_text p.partition_key))
      (value_error "observations require a partition_key")
  raise_if (is_nil p.observations && is_some p.partition_key)
      (value_error "empty page cannot declare a partition_key")
  raise_if (p.completed && is_some p.next_cursor)
      (value_error "completed page cannot expose next_cursor")
  raise_if (not p.completed && not (is_some p.next_cursor))
      (value_error "incomplete page requires next_cursor")
  ok p

-- The body of the loop of `_validate_page`.
unfoldable pub validate_observation : Str → FetchReceipt → HistoricalObservation → Result (Unit {0})
validate_observation dataset r o = do
  raise_if (not (same o.dataset dataset))
      (value_error "adapter page contains observation from another dataset")
  raise_if (not (same o.fetch_id r.fetch_id))
      (value_error "observation fetch_id does not match page receipt")
  raise_if (not (same o.payload_sha256 r.payload_sha256))
      (value_error "observation payload digest does not match page receipt")
  raise_if (not (same o.provider r.provider))
      (value_error "observation provider does not match page receipt")
  raise_if (not (same o.source_id r.source_id))
      (value_error "observation source_id does not match page receipt")
  raise_if (not (o.fetched_at == r.fetched_at))
      (value_error "observation fetched_at does not match page receipt")

unfoldable pub validate_all : Str → FetchReceipt → List HistoricalObservation → Result (Unit {0})
validate_all dataset r [] = ok tt
validate_all dataset r (o ∷ os) = do validate_observation dataset r o; validate_all dataset r os

-- `_validate_page`, given the adapter's dataset.
unfoldable pub validate_page : Str → BackfillPage → Result (Unit {0})
validate_page dataset p = validate_all dataset p.receipt p.observations

-- What `run` does with the adapter's answer: the page is built, and validated.
unfoldable pub receive_page : (Str → Str) → Str → Result BackfillPage → Result BackfillPage
receive_page sha256 dataset answer = do
  built ← answer
  page ← backfill_page sha256 built
  validate_page dataset page
  ok page

-- An observation of the dataset that the receipt's fetch brought.
pub record IsOf (dataset : Str) (r : FetchReceipt) (o : HistoricalObservation) : Type 0 where
  pub of_dataset : o.dataset ≡ dataset
  pub fetch : o.fetch_id ≡ r.fetch_id
  pub payload : o.payload_sha256 ≡ r.payload_sha256
  pub provider : o.provider ≡ r.provider
  pub source : o.source_id ≡ r.source_id
  pub time : o.fetched_at ≡ r.fetched_at

validate_observation-IsOf :
    (dataset : Str) (r : FetchReceipt) (o : HistoricalObservation)
    → (validate_observation dataset r o ≡ ok tt) ↔ IsOf dataset r o
unfolding validate_observation
validate_observation-IsOf dataset r o = (
  λ h. record {
    of_dataset = same_eq o.dataset dataset (ground arith);
    fetch = same_eq o.fetch_id r.fetch_id (ground arith);
    payload = same_eq o.payload_sha256 r.payload_sha256 (ground arith);
    provider = same_eq o.provider r.provider (ground arith);
    source = same_eq o.source_id r.source_id (ground arith);
    time = ground arith;
  },
  λ i.
      let a : same o.dataset dataset ≡ true = rw i.of_dataset (same_refl dataset) in
      let b : same o.fetch_id r.fetch_id ≡ true = rw i.fetch (same_refl r.fetch_id) in
      let c : same o.payload_sha256 r.payload_sha256 ≡ true =
        rw i.payload (same_refl r.payload_sha256) in
      let d : same o.provider r.provider ≡ true = rw i.provider (same_refl r.provider) in
      let e : same o.source_id r.source_id ≡ true = rw i.source (same_refl r.source_id) in
      let t = i.time in ground arith,
)

validate_all-IsOf :
    (dataset : Str) (r : FetchReceipt) (os : List HistoricalObservation)
    → (validate_all dataset r os ≡ ok tt) ↔ All (IsOf dataset r) os
unfolding validate_all
validate_all-IsOf dataset r [] = (λ h. tt, λ h. refl)
validate_all-IsOf dataset r (o ∷ os) =
    let one = validate_observation-IsOf dataset r o in
    let rest = validate_all-IsOf dataset r os in
    (
      λ h.
          let (u, here, later) = >>=-eq-ok (validate_observation dataset r o) _ h in
          (one.0 here, rest.0 later),
      λ (here, later). rw (one.1 here) (rest.1 later),
    )

-- A page passes the validation if and only if each of its observations is of the adapter's dataset and
-- agrees with the page's receipt on fetch, payload, provider, source and time.
pub validate_page-IsOf :
    (dataset : Str) (p : BackfillPage)
    → (validate_page dataset p ≡ ok tt) ↔ All (IsOf dataset p.receipt) p.observations
unfolding validate_page
validate_page-IsOf dataset p = validate_all-IsOf dataset p.receipt p.observations
