-- ===== src/Streams/Model.antt =====
-- `CrossStreamFreshnessPolicy` and `_check_stream`. Of the states of
-- the streams only what this module reads is kept; ages and limits are in microseconds.
use xrp_inteliggence_x.Base.{
  ℕ, ◌-◌, Bool, true, false, not, ◌&&◌, Option, none, some, List, [], ◌∷◌, ◌++◌, String, ltb, leb,
  if◌then◌else◌, nat_order, list_order, ℤ, pos, negsuc, ltb_ℤ, Str, str, Result, ok, raise, ◌>>=◌,
  value_error, type_error, is_some, DateTime, naive, aware, utc, pos_part,
}

-- A Python float that limits an age: `finite` on the scale of microseconds, or infinite or not a
-- number.
pub data Limit : Type 0 where
  finite : ℤ → Limit
  not_finite : Limit

pub record RawFreshnessPolicy : Type 0 where
  pub depth_max_age : Limit
  pub agg_trades_max_age : Limit
  pub open_interest_max_age : Limit
  pub funding_max_age : Limit
  pub max_observed_skew : Limit

pub record CrossStreamFreshnessPolicy : Type 0 where
  pub depth_max_age : ℕ
  pub agg_trades_max_age : ℕ
  pub open_interest_max_age : ℕ
  pub funding_max_age : ℕ
  pub max_observed_skew : ℕ

-- One round of the loop of `__post_init__`.
unfoldable pub check_limit : Limit → String → Result ℕ
check_limit not_finite field = raise (value_error field)
check_limit (finite v) field =
    if ltb_ℤ (pos 0) v then ok (pos_part v) else raise (value_error field)

-- `CrossStreamFreshnessPolicy.__post_init__`
unfoldable pub freshness_policy : RawFreshnessPolicy → Result CrossStreamFreshnessPolicy
freshness_policy p = do
  depth ← check_limit p.depth_max_age "depth_max_age_seconds"
  trades ← check_limit p.agg_trades_max_age "agg_trades_max_age_seconds"
  interest ← check_limit p.open_interest_max_age "open_interest_max_age_seconds"
  funding ← check_limit p.funding_max_age "funding_max_age_seconds"
  skew ← check_limit p.max_observed_skew "max_observed_skew_seconds"
  ok (record {
    depth_max_age = depth;
    agg_trades_max_age = trades;
    open_interest_max_age = interest;
    funding_max_age = funding;
    max_observed_skew = skew;
  })

abbrev pub default_policy : CrossStreamFreshnessPolicy
default_policy = record {
  depth_max_age = 5000000;
  agg_trades_max_age = 5000000;
  open_interest_max_age = 30000000;
  funding_max_age = 120000000;
  max_observed_skew = 30000000;
}

-- What `_check_stream` is given of one stream.
pub record Stream : Type 0 where
  pub symbol : Str
  pub observed_at : DateTime
  pub available_at : Option DateTime
  pub fetched_at : Option DateTime
  pub provenance_complete : Bool

-- `DepthDynamics` and `OrderFlowState`
pub record WindowState : Type 0 where
  pub symbol : Str
  pub observed_at : DateTime
  pub last_observed_at : Option DateTime
  pub last_available_at : Option DateTime
  pub last_fetched_at : Option DateTime
  pub provenance_complete : Bool

-- `FundingState` and `OpenInterestState`
pub record PointState : Type 0 where
  pub symbol : Str
  pub observed_at : DateTime
  pub available_at : Option DateTime
  pub fetched_at : Option DateTime

abbrev pub or_else : Option DateTime → DateTime → DateTime
or_else none d = d
or_else (some t) d = t

abbrev pub window_stream : WindowState → Stream
window_stream s = record {
  symbol = s.symbol;
  observed_at = or_else s.last_observed_at s.observed_at;
  available_at = s.last_available_at;
  fetched_at = s.last_fetched_at;
  provenance_complete = s.provenance_complete;
}

-- `provenance_complete` of `FundingState` and of `OpenInterestState` is a property.
abbrev pub point_stream : PointState → Stream
point_stream s = record {
  symbol = s.symbol;
  observed_at = s.observed_at;
  available_at = s.available_at;
  fetched_at = s.fetched_at;
  provenance_complete = is_some s.available_at && is_some s.fetched_at;
}

-- The list of flags, which the caller shares, and `blocked`.
pub record Marks : Type 0 where
  pub flags : List Str
  pub blocked : Bool

-- `if test: flags.append(flag); blocked = True`
unfoldable pub mark_if : Bool → Str → Marks → Marks
mark_if true flag m = record { flags = m.flags ++ flag ∷ []; blocked = true }
mark_if false flag m = m

-- `value is not None and value > prediction_time`, which raises on a naive value.
unfoldable pub is_future : Option DateTime → ℕ → Result Bool
is_future none now = ok false
is_future (some (naive t)) now = raise type_error
is_future (some (aware t)) now = ok (ltb now t)

-- The `if`/`else` on the provenance.
unfoldable pub check_provenance :
    Str → ℕ → Option DateTime → Option DateTime → Bool → Marks → Result Marks
check_provenance name observed (some available) (some fetched) true m = do
  a ← utc available "available_at"
  f ← utc fetched "fetched_at"
  ok (mark_if (not (leb observed a && leb a f)) (name ++ str "_PROVENANCE_INVALID") m)
check_provenance name observed (some available) (some fetched) false m =
    ok (mark_if true (name ++ str "_PROVENANCE_INCOMPLETE") m)
check_provenance name observed (some available) none complete m =
    ok (mark_if true (name ++ str "_PROVENANCE_INCOMPLETE") m)
check_provenance name observed none fetched complete m =
    ok (mark_if true (name ++ str "_PROVENANCE_INCOMPLETE") m)

-- `(later - earlier)` in microseconds
unfoldable pub since : ℕ → ℕ → ℤ
since later earlier =
    if leb earlier later then pos (later - earlier) else negsuc (earlier - later - 1)

pub record Checked : Type 0 where
  pub flags : List Str
  pub age : Option ℤ
  pub blocked : Bool

-- `_check_stream` on data.
unfoldable pub check_present : Str → Stream → ℕ → ℕ → List Str → Result Checked
check_present name s now max_age flags = do
  observed ← utc s.observed_at "observed_at"
  m ←
      check_provenance name observed s.available_at s.fetched_at s.provenance_complete
        (record { flags = flags; blocked = false })
  available_later ← is_future s.available_at now
  fetched_later ← is_future s.fetched_at now
  let future = name ++ str "_FUTURE_KNOWLEDGE"
  let m1 = mark_if (ltb now observed) future m
  let m2 = mark_if fetched_later future (mark_if available_later future m1)
  let m3 = mark_if (ltb_ℤ (pos max_age) (since now observed)) (name ++ str "_STALE") m2
  ok (record { flags = m3.flags; age = some (since now observed); blocked = m3.blocked })

-- `_check_stream`
unfoldable pub check_stream : Str → Option Stream → ℕ → ℕ → List Str → Result Checked
check_stream name none now max_age flags =
    ok (record { flags = flags ++ (name ++ str "_NO_DATA") ∷ []; age = none; blocked = true })
check_stream name (some s) now max_age flags = check_present name s now max_age flags
