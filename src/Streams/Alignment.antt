-- ===== src/Streams/Alignment.antt =====
-- When `assess_cross_stream_alignment` finds the streams eligible.
use xrp_inteliggence_x.Base.{
  ℕ, ◌≡◌, ◌↔◌, refl, ◌∙◌, sym, ap, subst, true, false, not, ◌&&◌, Option, List, [], ◌∷◌, map,
  is_nil, list_order, nat_order, AllDistinct, Dict, keys, insert, insert-HasDistinctKeys,
  HasDistinctKeys, keys-AllDistinct, ok, >>=-eq-ok, raise_if, collect, value_error, Str, str,
  DateTime, utc, arith,
}
use xrp_inteliggence_x.Streams.Model.{CrossStreamFreshnessPolicy, Marks, mark_if, check_stream}
use xrp_inteliggence_x.Streams.Assess.{
  Streams, CrossStreamAlignment, Checks, check_all, any_blocked, depth_of, order_flow_of,
  open_interest_of, funding_of, given, mixes, instant, skew_of, exceeds, from_keys, unique,
  chosen_policy, assess_cross_stream_alignment,
}
use xrp_inteliggence_x.Streams.Marking.{IsTimelyIfGiven, Agrees, mark_if-Agrees, mark_if-blocked}
use xrp_inteliggence_x.Streams.Freshness.{check_stream-IsTimely, check_stream-Agrees}
use xrp_inteliggence_x.Streams.Skew.{AreWithin, skew_of-AreWithin}

-- Every stream is timely at `now`, and the observed times lie within the skew.
pub record IsAligned (s : Streams) (now : ℕ) (policy : CrossStreamFreshnessPolicy) : Type 0 where
  pub depth : IsTimelyIfGiven (depth_of s) now policy.depth_max_age
  pub agg_trades : IsTimelyIfGiven (order_flow_of s) now policy.agg_trades_max_age
  pub open_interest : IsTimelyIfGiven (open_interest_of s) now policy.open_interest_max_age
  pub funding : IsTimelyIfGiven (funding_of s) now policy.funding_max_age
  pub observed : List ℕ
  pub observed_times : collect instant (given s) ≡ ok observed
  pub close : AreWithin policy.max_observed_skew observed

-- The five checks, and what they say together.
pub record Outcome (s : Streams) (now : ℕ) (policy : CrossStreamFreshnessPolicy) (c : Checks)
    : Type 0 where
  pub depth : (c.depth.blocked ≡ false) ↔ IsTimelyIfGiven (depth_of s) now policy.depth_max_age
  pub agg_trades :
      (c.agg_trades.blocked ≡ false)
      ↔ IsTimelyIfGiven (order_flow_of s) now policy.agg_trades_max_age
  pub open_interest :
      (c.open_interest.blocked ≡ false)
      ↔ IsTimelyIfGiven (open_interest_of s) now policy.open_interest_max_age
  pub funding :
      (c.funding.blocked ≡ false) ↔ IsTimelyIfGiven (funding_of s) now policy.funding_max_age
  pub basis : (c.basis.blocked ≡ false) ↔ IsTimelyIfGiven (funding_of s) now policy.funding_max_age
  pub flagged : Agrees [] c.basis.flags (any_blocked c)

check_all-Outcome :
    (s : Streams) (now : ℕ) (policy : CrossStreamFreshnessPolicy) {c : Checks}
    → check_all s now policy ≡ ok c
    → Outcome s now policy c
unfolding check_all
check_all-Outcome s now policy {c} h =
    let (d, hd, h1) =
      >>=-eq-ok (check_stream (str "DEPTH") (depth_of s) now policy.depth_max_age []) _ h in
    let (t, ht, h2) =
      >>=-eq-ok
        (check_stream (str "AGG_TRADES") (order_flow_of s) now policy.agg_trades_max_age d.flags) _
        h1 in
    let (o, ho, h3) =
      >>=-eq-ok
        (check_stream (str "OPEN_INTEREST") (open_interest_of s) now policy.open_interest_max_age
          t.flags)
        _ h2 in
    let (f, hf, h4) =
      >>=-eq-ok (check_stream (str "FUNDING") (funding_of s) now policy.funding_max_age o.flags) _
        h3 in
    let (b, hb, h5) =
      >>=-eq-ok (check_stream (str "BASIS") (funding_of s) now policy.funding_max_age f.flags) _
        h4 in
    let parts : c
        ≡ record { depth = d; agg_trades = t; open_interest = o; funding = f; basis = b } =
      ground arith in
    subst (Outcome s now policy) (sym parts) (record {
      depth = check_stream-IsTimely _ (depth_of s) now _ _ hd;
      agg_trades = check_stream-IsTimely _ (order_flow_of s) now _ _ ht;
      open_interest = check_stream-IsTimely _ (open_interest_of s) now _ _ ho;
      funding = check_stream-IsTimely _ (funding_of s) now _ _ hf;
      basis = check_stream-IsTimely _ (funding_of s) now _ _ hb;
      flagged =
          let ad = check_stream-Agrees _ (depth_of s) now _ _ hd in
          let at = check_stream-Agrees _ (order_flow_of s) now _ _ ht in
          let ao = check_stream-Agrees _ (open_interest_of s) now _ _ ho in
          let af = check_stream-Agrees _ (funding_of s) now _ _ hf in
          let ab = check_stream-Agrees _ (funding_of s) now _ _ hb in ground arith;
    })

-- The parts of a call that returns.
pub record Assessed (s : Streams) (policy : CrossStreamFreshnessPolicy) (a : CrossStreamAlignment)
    : Type 0 where
  pub checks : Checks
  pub checked : check_all s a.prediction_time policy ≡ ok checks
  pub observed : List ℕ
  pub observed_times : collect instant (given s) ≡ ok observed
  pub final : Marks
  pub finished :
      final
      ≡ mark_if
          (exceeds (skew_of observed) policy.max_observed_skew)
          (str "CROSS_STREAM_MISALIGNED")
          (record { flags = checks.basis.flags; blocked = any_blocked checks })
  pub eligible : a.evidence_eligible ≡ not final.blocked
  pub flags : a.quality_flags ≡ unique final.flags

assess-Assessed :
    (s : Streams) (prediction_time : DateTime) (chosen : Option CrossStreamFreshnessPolicy)
    {a : CrossStreamAlignment}
    → assess_cross_stream_alignment s prediction_time chosen ≡ ok a
    → Assessed s (chosen_policy chosen) a
unfolding assess_cross_stream_alignment
assess-Assessed s prediction_time chosen {a} h =
    let policy = chosen_policy chosen in
    let (now, timed, h1) = >>=-eq-ok (utc prediction_time "prediction_time") _ h in
    let (u, unmixed, h2) =
      >>=-eq-ok
        (raise_if (mixes (map (λ x. x.symbol) (given s)))
          (value_error "cross-stream alignment cannot mix symbols"))
        _ h1 in
    let (c, checked, h3) = >>=-eq-ok (check_all s now policy) _ h2 in
    let (observed, times, h4) = >>=-eq-ok (collect instant (given s)) _ h3 in
    let time : a.prediction_time ≡ now = ground arith in
    record {
      checks = c;
      checked = rw time checked;
      observed = observed;
      observed_times = times;
      final =
          mark_if (exceeds (skew_of observed) policy.max_observed_skew)
            (str "CROSS_STREAM_MISALIGNED")
            (record { flags = c.basis.flags; blocked = any_blocked c });
      finished = refl;
      eligible = ground arith;
      flags = ground arith;
    }

-- The evidence is eligible if and only if depth, trades, open interest and funding are each given,
-- with complete and ordered provenance, fetched before the prediction time and observed within their
-- limits of it, and no two of their observed times lie further apart than the skew allows.
pub assess-eligible_iff :
    (s : Streams) (prediction_time : DateTime) (chosen : Option CrossStreamFreshnessPolicy)
    {a : CrossStreamAlignment}
    → assess_cross_stream_alignment s prediction_time chosen ≡ ok a
    → (a.evidence_eligible ≡ true) ↔ IsAligned s a.prediction_time (chosen_policy chosen)
assess-eligible_iff s prediction_time chosen {a} h =
    let policy = chosen_policy chosen in
    let r = assess-Assessed s prediction_time chosen h in
    let o = check_all-Outcome s a.prediction_time policy r.checked in
    let skew = skew_of-AreWithin policy.max_observed_skew r.observed in
    let blocked = ap (λ m. m.blocked) r.finished ∙ mark_if-blocked _ _ _ in
    let eligible = r.eligible in
    (
      λ e. record {
        depth = o.depth.0 (ground arith);
        agg_trades = o.agg_trades.0 (ground arith);
        open_interest = o.open_interest.0 (ground arith);
        funding = o.funding.0 (ground arith);
        observed = r.observed;
        observed_times = r.observed_times;
        close = skew.0 (ground arith);
      },
      λ i.
          let d = o.depth.1 i.depth in
          let t = o.agg_trades.1 i.agg_trades in
          let n = o.open_interest.1 i.open_interest in
          let f = o.funding.1 i.funding in
          let b = o.basis.1 i.funding in
          let same_times : i.observed ≡ r.observed =
            ok_injective (sym i.observed_times ∙ r.observed_times) in
          let w = skew.1 (subst (AreWithin policy.max_observed_skew) same_times i.close) in
          ground arith,
    )
  where
    ok_injective : {ts us : List ℕ} → ok ts ≡ ok us → ts ≡ us
    ok_injective e = ground arith

is_nil-keys-insert : (k : Str) (d : Dict Str (Unit {0})) → is_nil (keys (insert k tt d)) ≡ false
unfolding insert
is_nil-keys-insert k [] = refl
is_nil-keys-insert k ((j, u) ∷ d) = ground arith

from_keys-nil :
    (flags : List Str) (d : Dict Str (Unit {0}))
    → is_nil (from_keys flags d) ≡ is_nil flags && is_nil (keys d)
unfolding from_keys
from_keys-nil [] d = refl
from_keys-nil (k ∷ ks) d = ground (arith, from_keys-nil ks (insert k tt d), is_nil-keys-insert k d)

from_keys-AllDistinct :
    (flags : List Str) (d : Dict Str (Unit {0}))
    → HasDistinctKeys d
    → AllDistinct (from_keys flags d)
unfolding from_keys
from_keys-AllDistinct [] d h = keys-AllDistinct d h
from_keys-AllDistinct (k ∷ ks) d h =
    from_keys-AllDistinct ks (insert k tt d) (insert-HasDistinctKeys k tt d h)

-- An assessment carries no flag if and only if its evidence is eligible, and no flag twice.
pub assess-flags_iff :
    (s : Streams) (prediction_time : DateTime) (chosen : Option CrossStreamFreshnessPolicy)
    {a : CrossStreamAlignment}
    → assess_cross_stream_alignment s prediction_time chosen ≡ ok a
    → ((a.evidence_eligible ≡ true) ↔ (is_nil a.quality_flags ≡ true)) × AllDistinct a.quality_flags
assess-flags_iff s prediction_time chosen {a} h =
    let policy = chosen_policy chosen in
    let r = assess-Assessed s prediction_time chosen h in
    let o = check_all-Outcome s a.prediction_time policy r.checked in
    let agrees : Agrees [] r.final.flags r.final.blocked =
      rw r.finished (mark_if-Agrees [] _ _ _ o.flagged) in
    let none_left = ap is_nil r.flags ∙ from_keys-nil r.final.flags [] in
    let eligible = r.eligible in
    ((λ e. ground arith, λ e. ground arith), rw r.flags (from_keys-AllDistinct r.final.flags [] tt))
