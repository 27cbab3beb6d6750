-- ===== src/Streams/Totality.antt =====
-- When `assess_cross_stream_alignment` returns.
use xrp_inteliggence_x.Base.{
  ℕ, ◌≡◌, refl, Bool, true, false, Option, none, some, List, [], ◌∷◌, map, All, All_of_mem, ok,
  collect-total, Str, str, String, DateTime, naive, aware, utc,
}
use xrp_inteliggence_x.Streams.Model.{
  CrossStreamFreshnessPolicy, Stream, Marks, is_future, check_provenance, Checked, check_present,
  check_stream,
}
use xrp_inteliggence_x.Streams.Assess.{
  Streams, CrossStreamAlignment, Checks, check_all, depth_of, order_flow_of, open_interest_of,
  funding_of, given, mixes, instant, chosen_policy, assess_cross_stream_alignment, present,
}

abbrev pub IsAware : DateTime → Type 0
IsAware (naive t) = ⊥
IsAware (aware t) = Unit

abbrev pub IsAwareIfGiven : Option DateTime → Type 0
IsAwareIfGiven none = Unit
IsAwareIfGiven (some d) = IsAware d

-- All times of the stream are aware.
abbrev pub HasAwareTimes : Stream → Type 0
HasAwareTimes s =
    IsAware s.observed_at × IsAwareIfGiven s.available_at × IsAwareIfGiven s.fetched_at

utc-total : (d : DateTime) (field : String) → IsAware d → (t : ℕ) × (utc d field ≡ ok t)
unfolding utc
utc-total (naive t) field h = elim h [ ]
utc-total (aware t) field h = (t, refl)

is_future-total :
    (d : Option DateTime) (now : ℕ) → IsAwareIfGiven d → (b : Bool) × (is_future d now ≡ ok b)
unfolding is_future
is_future-total none now h = (false, refl)
is_future-total (some (naive t)) now h = elim h [ ]
is_future-total (some (aware t)) now h = (_, refl)

check_provenance-total :
    (name : Str) (o : ℕ) (a f : Option DateTime) (complete : Bool) (m : Marks)
    → IsAwareIfGiven a
    → IsAwareIfGiven f
    → (n : Marks) × (check_provenance name o a f complete m ≡ ok n)
unfolding check_provenance
check_provenance-total name o (some a) (some f) true m h k =
    let (t, e) = utc-total a "available_at" h in
    let (u, d) = utc-total f "fetched_at" k in rw (e, d) (_, refl)
check_provenance-total name o (some a) (some f) false m h k = (_, refl)
check_provenance-total name o (some a) none complete m h k = (_, refl)
check_provenance-total name o none f complete m h k = (_, refl)

check_stream-total :
    (name : Str) (s : Option Stream) (now max_age : ℕ) (flags : List Str)
    → All HasAwareTimes (present (s ∷ []))
    → (c : Checked) × (check_stream name s now max_age flags ≡ ok c)
unfolding check_stream check_present
check_stream-total name none now max_age flags h = (_, refl)
check_stream-total name (some s) now max_age flags ((o, a, f), _) =
    let (observed, e1) = utc-total s.observed_at "observed_at" o in
    let (m, e2) =
      check_provenance-total name observed s.available_at s.fetched_at s.provenance_complete
        (record { flags = flags; blocked = false }) a f in
    let (x, e3) = is_future-total s.available_at now a in
    let (y, e4) = is_future-total s.fetched_at now f in rw (e1, e2, e3, e4) (_, refl)

present-All :
    (P : Stream → Type 0) (x : Option Stream) (os : List (Option Stream))
    → All P (present (x ∷ os))
    → All P (present (x ∷ [])) × All P (present os)
present-All P none os h = (tt, h)
present-All P (some s) os h = ((h.0, tt), h.1)

check_all-total :
    (s : Streams) (now : ℕ) (policy : CrossStreamFreshnessPolicy)
    → All HasAwareTimes (given s)
    → (c : Checks) × (check_all s now policy ≡ ok c)
unfolding check_all
check_all-total s now policy h =
    let (hd, h1) =
      present-All HasAwareTimes (depth_of s)
        (order_flow_of s ∷ open_interest_of s ∷ funding_of s ∷ []) h in
    let (ht, h2) =
      present-All HasAwareTimes (order_flow_of s) (open_interest_of s ∷ funding_of s ∷ []) h1 in
    let (ho, hf) = present-All HasAwareTimes (open_interest_of s) (funding_of s ∷ []) h2 in
    let (d, ed) = check_stream-total (str "DEPTH") (depth_of s) now policy.depth_max_age [] hd in
    let (t, et) =
      check_stream-total (str "AGG_TRADES") (order_flow_of s) now policy.agg_trades_max_age d.flags
        ht in
    let (o, eo) =
      check_stream-total (str "OPEN_INTEREST") (open_interest_of s) now policy.open_interest_max_age
        t.flags ho in
    let (f, ef) =
      check_stream-total (str "FUNDING") (funding_of s) now policy.funding_max_age o.flags hf in
    let (b, eb) =
      check_stream-total (str "BASIS") (funding_of s) now policy.funding_max_age f.flags hf in
    rw (ed, et, eo, ef, eb) (_, refl)

-- If all times are aware and the streams given are of one symbol, an assessment is returned.
pub assess-total :
    (s : Streams) (now : ℕ) (chosen : Option CrossStreamFreshnessPolicy)
    → All HasAwareTimes (given s)
    → mixes (map (λ x. x.symbol) (given s)) ≡ false
    → (a : CrossStreamAlignment) × (assess_cross_stream_alignment s (aware now) chosen ≡ ok a)
unfolding assess_cross_stream_alignment utc
assess-total s now chosen h unmixed =
    let (c, checked) = check_all-total s now (chosen_policy chosen) h in
    let (ts, times) =
      collect-total instant (given s)
        (λ x m. utc-total x.observed_at "observed_at" (All_of_mem HasAwareTimes (given s) h m).0) in
    rw (unmixed, checked, times) (_, refl)
