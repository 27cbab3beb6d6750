-- ===== src/Contract/Eligibility.antt =====
-- What `__post_init__` establishes, and what `eligibility_at` says of an observation.
use xrp_inteliggence_x.Base.{
  ℕ, suc, ◌≤◌, ◌≡◌, refl, ◌↔◌, Bool, true, false, Option, none, some, is_some, ok, arith, is_sha256,
  String, Str,
}
use xrp_inteliggence_x.Contract.Observation.{
  RawObservation, HistoricalObservation, AvailabilityPrecision, EligibilityClass, post_init,
  precedes, check_availability, boundary_of, availability_boundary, is_given, classify, eligibility,
  sha,
}

abbrev pub is_known : AvailabilityPrecision → Bool
is_known AvailabilityPrecision.unknown = false
is_known _ = true

-- A time, if there is one, that lies at or before another.
abbrev pub IsBy : Option ℕ → ℕ → Type 0
IsBy none t = Unit
IsBy (some a) t = a ≤ t

is_by : (a : Option ℕ) (t : ℕ) → precedes t a ≡ false → IsBy a t
is_by none t h = tt
is_by (some a) t h = ground arith

pub record IsWellFormed (o : HistoricalObservation) : Type 0 where
  -- Exactly the observations of unknown availability have no boundary.
  pub bounded : is_some (availability_boundary o) ≡ is_known o.availability_precision
  pub causal : IsBy o.available_at o.fetched_at
  pub hashed : is_sha256 o.payload_sha256 ≡ true

check_availability-bounded :
    (p : AvailabilityPrecision) (at on : Option ℕ)
    → check_availability p (is_some at) (is_some on) ≡ ok tt
    → is_some (boundary_of p at on) ≡ is_known p
unfolding check_availability
check_availability-bounded AvailabilityPrecision.exact at on h = ground arith
check_availability-bounded AvailabilityPrecision.date_only at on h = ground arith
check_availability-bounded AvailabilityPrecision.inferred_conservative at on h = ground arith
check_availability-bounded AvailabilityPrecision.unknown at on h = ground arith

sha-eq-ok : (s : Str) (field : String) (d : Str) → sha s field ≡ ok d → is_sha256 d ≡ true
unfolding sha
sha-eq-ok s field d h = ground arith

-- Whatever the constructor lets through is well formed: it has an availability boundary unless its
-- precision is UNKNOWN; if it has an available_at, it was not fetched before that instant; and its
-- payload digest is a lowercase SHA-256.
pub post_init-IsWellFormed :
    (r : RawObservation) {o : HistoricalObservation} → post_init r ≡ ok o → IsWellFormed o
unfolding post_init
post_init-IsWellFormed r {o} h = record {
  bounded =
      ground (
        arith,
        check_availability-bounded o.availability_precision o.available_at o.available_date,
      );
  causal = is_by o.available_at o.fetched_at (ground arith);
  hashed = ground (arith, sha-eq-ok r.payload_sha256 "payload_sha256" o.payload_sha256);
}

-- What a replay at the instant `t` may know of an observation.
pub record IsReplayable (o : HistoricalObservation) (t : ℕ) : Type 0 where
  pub boundary : ℕ
  pub known : availability_boundary o ≡ some boundary
  pub past : boundary ≤ t
  pub fetched : o.fetched_at ≤ t

classify-strict :
    (b : Option ℕ) (f t : ℕ) (basis : Option Str)
    → classify b f basis t ≡ EligibilityClass.strict_replay
    → (c : ℕ) × (b ≡ some c) × (c ≤ t) × (f ≤ t)
unfolding classify
classify-strict none f t basis h = cc
classify-strict (some c) f t basis h = (c, refl, ground arith, ground arith)

replay_of_strict :
    (o : HistoricalObservation) (t : ℕ)
    → eligibility o t ≡ EligibilityClass.strict_replay
    → IsReplayable o t
unfolding eligibility
replay_of_strict o t h =
    let (c, known, past, fetched) =
      classify-strict (availability_boundary o) o.fetched_at t o.reconstruction_basis_id h in
    record { boundary = c; known = known; past = past; fetched = fetched }

strict_of_replay :
    (o : HistoricalObservation) (t : ℕ)
    → IsReplayable o t
    → eligibility o t ≡ EligibilityClass.strict_replay
unfolding eligibility classify
strict_of_replay o t r = ground (arith, r.known)

-- An observation is STRICT_REPLAY at `t` exactly when its availability boundary and its fetch both
-- lie at or before `t`.
pub eligibility-strict_iff :
    (o : HistoricalObservation) (t : ℕ)
    → (eligibility o t ≡ EligibilityClass.strict_replay) ↔ IsReplayable o t
eligibility-strict_iff o t = (replay_of_strict o t, strict_of_replay o t)

-- Eligibility for a strict replay is never lost as time goes on.
pub eligibility-strict_mono :
    (o : HistoricalObservation) (t u : ℕ)
    → t ≤ u
    → eligibility o t ≡ EligibilityClass.strict_replay
    → eligibility o u ≡ EligibilityClass.strict_replay
eligibility-strict_mono o t u le h =
    let r = replay_of_strict o t h in
    strict_of_replay o u
      (record { boundary = r.boundary; known = r.known; past = omega arith; fetched = omega arith })

-- An observation is RECONSTRUCTED_PIT at `t` exactly when its boundary lies at or before `t`, its
-- fetch lies after `t`, and it names a reconstruction basis.
pub eligibility-reconstructed_iff :
    (o : HistoricalObservation) (t b : ℕ)
    → availability_boundary o ≡ some b
    → (eligibility o t ≡ EligibilityClass.reconstructed_pit)
      ↔ ((b ≤ t) × (suc t ≤ o.fetched_at) × (is_given o.reconstruction_basis_id ≡ true))
unfolding eligibility classify
eligibility-reconstructed_iff o t b known = (λ h. ground (arith, known), λ h. ground (arith, known))
