-- ===== src/Base/Time.antt =====
-- `datetime` and `timedelta` in microseconds. An aware `datetime` is its instant in UTC, counted from
-- `datetime.min`; of a naive one the engine only tests that it is naive.
use Prim.Native.Nat.{ℕ, ◌-◌, ◌*◌}
use Prim.Native.String.{String}
use xrp_inteliggence_x.Base.Bools.{ltb, if◌then◌else◌}
use xrp_inteliggence_x.Base.Outcomes.{Result, ok, raise, value_error, overflow_error}

pub data DateTime : Type 0 where
  naive : ℕ → DateTime
  aware : ℕ → DateTime

-- `_utc(value, field)` and `_require_aware(value, field)`: the instant, or the `ValueError`
-- "<field> must be timezone-aware", of which the field is kept.
unfoldable pub utc : DateTime → String → Result ℕ
utc (naive t) field = raise (value_error field)
utc (aware t) field = ok t

-- `instant - delta`, which overflows below `datetime.min`.
unfoldable pub minus_delta : ℕ → ℕ → Result ℕ
minus_delta t d = if ltb t d then raise overflow_error else ok (t - d)

-- Seconds in microseconds.
abbrev pub seconds : ℕ → ℕ
seconds n = n * 1000000
