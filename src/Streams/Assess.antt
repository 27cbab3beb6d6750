-- ===== src/Streams/Assess.antt =====
-- `assess_cross_stream_alignment`.
use xrp_inteliggence_x.Base.{
  ℕ, ◌-◌, min, max, Bool, false, not, ◌||◌, Option, none, some, List, [], ◌∷◌, map, ltb, exists,
  same, nat_order, list_order, Dict, keys, insert, ℤ, Str, str, Result, ok, ◌>>=◌, ◌>>◌, raise_if,
  collect, value_error, DateTime, utc,
}
use xrp_inteliggence_x.Streams.Model.{
  CrossStreamFreshnessPolicy, default_policy, Stream, WindowState, PointState, window_stream,
  point_stream, mark_if, Checked, check_stream,
}

-- `tuple(dict.fromkeys(flags))`
unfoldable pub from_keys : List Str → Dict Str (Unit {0}) → List Str
from_keys [] d = keys d
from_keys (k ∷ ks) d = from_keys ks (insert k tt d)

abbrev pub unique : List Str → List Str
unique flags = from_keys flags []

abbrev pub present {ℓ} : {A : Type ℓ} → List (Option A) → List A
present [] = []
present (none ∷ os) = present os
present (some a ∷ os) = a ∷ present os

-- `len(symbols) > 1` for the set of the symbols
unfoldable pub mixes : List Str → Bool
mixes [] = false
mixes (s ∷ ss) = exists (λ t. not (same s t)) ss

abbrev pub symbol_of : List Str → Str
symbol_of [] = str "UNKNOWN"
symbol_of (s ∷ ss) = s

-- A time that is compared with others, all aware: `_check_stream` has raised on a naive one.
abbrev pub instant : Stream → Result ℕ
instant s = utc s.observed_at "observed_at"

unfoldable pub latest : ℕ → List ℕ → ℕ
latest t [] = t
latest t (u ∷ us) = max t (latest u us)

unfoldable pub earliest : ℕ → List ℕ → ℕ
earliest t [] = t
earliest t (u ∷ us) = min t (earliest u us)

-- `max(observed) - min(observed)`, if at least two streams have data.
unfoldable pub skew_of : List ℕ → Option ℕ
skew_of [] = none
skew_of (t ∷ []) = none
skew_of (t ∷ u ∷ us) = some (latest t (u ∷ us) - earliest t (u ∷ us))

abbrev pub exceeds : Option ℕ → ℕ → Bool
exceeds none limit = false
exceeds (some skew) limit = ltb limit skew

pub record CrossStreamAlignment : Type 0 where
  pub symbol : Str
  pub prediction_time : ℕ
  pub depth_age : Option ℤ
  pub agg_trades_age : Option ℤ
  pub open_interest_age : Option ℤ
  pub funding_age : Option ℤ
  pub basis_age : Option ℤ
  pub max_observed_skew : Option ℕ
  pub point_in_time_eligible : Bool
  pub evidence_eligible : Bool
  pub regime_eligible : Bool
  pub quality_flags : List Str
  pub execution_weight : ℕ

-- The streams in the order of the checks of the observed times.
pub record Streams : Type 0 where
  pub depth : Option WindowState
  pub order_flow : Option WindowState
  pub funding : Option PointState
  pub open_interest : Option PointState

abbrev pub map_option {ℓ κ} : {A : Type ℓ} {B : Type κ} → (A → B) → Option A → Option B
map_option f none = none
map_option f (some a) = some (f a)

abbrev pub depth_of : Streams → Option Stream
depth_of s = map_option window_stream s.depth

abbrev pub order_flow_of : Streams → Option Stream
order_flow_of s = map_option window_stream s.order_flow

abbrev pub funding_of : Streams → Option Stream
funding_of s = map_option point_stream s.funding

abbrev pub open_interest_of : Streams → Option Stream
open_interest_of s = map_option point_stream s.open_interest

abbrev pub given : Streams → List Stream
given s = present (depth_of s ∷ order_flow_of s ∷ open_interest_of s ∷ funding_of s ∷ [])

-- The five calls of `_check_stream`; the basis is in the funding state.
pub record Checks : Type 0 where
  pub depth : Checked
  pub agg_trades : Checked
  pub open_interest : Checked
  pub funding : Checked
  pub basis : Checked

unfoldable pub check_all : Streams → ℕ → CrossStreamFreshnessPolicy → Result Checks
check_all s now policy = do
  d ← check_stream (str "DEPTH") (depth_of s) now policy.depth_max_age []
  t ← check_stream (str "AGG_TRADES") (order_flow_of s) now policy.agg_trades_max_age d.flags
  o ←
      check_stream (str "OPEN_INTEREST") (open_interest_of s) now policy.open_interest_max_age
        t.flags
  f ← check_stream (str "FUNDING") (funding_of s) now policy.funding_max_age o.flags
  b ← check_stream (str "BASIS") (funding_of s) now policy.funding_max_age f.flags
  ok (record { depth = d; agg_trades = t; open_interest = o; funding = f; basis = b })

abbrev pub any_blocked : Checks → Bool
any_blocked c =
    c.depth.blocked || c.agg_trades.blocked || c.open_interest.blocked || c.funding.blocked
    || c.basis.blocked

-- `policy or CrossStreamFreshnessPolicy()`
abbrev pub chosen_policy : Option CrossStreamFreshnessPolicy → CrossStreamFreshnessPolicy
chosen_policy none = default_policy
chosen_policy (some p) = p

-- `assess_cross_stream_alignment`
unfoldable pub assess_cross_stream_alignment :
    Streams → DateTime → Option CrossStreamFreshnessPolicy → Result CrossStreamAlignment
assess_cross_stream_alignment s prediction_time chosen = do
  now ← utc prediction_time "prediction_time"
  let policy = chosen_policy chosen
  raise_if (mixes (map (λ x. x.symbol) (given s)))
      (value_error "cross-stream alignment cannot mix symbols")
  c ← check_all s now policy
  observed ← collect instant (given s)
  let skew = skew_of observed
  let m =
      mark_if (exceeds skew policy.max_observed_skew) (str "CROSS_STREAM_MISALIGNED")
        (record { flags = c.basis.flags; blocked = any_blocked c })
  ok (record {
    symbol = symbol_of (map (λ x. x.symbol) (given s));
    prediction_time = now;
    depth_age = c.depth.age;
    agg_trades_age = c.agg_trades.age;
    open_interest_age = c.open_interest.age;
    funding_age = c.funding.age;
    basis_age = c.basis.age;
    max_observed_skew = skew;
    point_in_time_eligible = not m.blocked;
    evidence_eligible = not m.blocked;
    regime_eligible = false;
    quality_flags = unique m.flags;
    execution_weight = 0;
  })
