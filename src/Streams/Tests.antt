-- ===== src/Streams/Tests.antt =====
-- Four streams at one prediction time.
use xrp_inteliggence_x.Base.{
  ℕ, ◌+◌, ◌≡◌, ◌↔◌, refl, true, false, none, some, [], ◌∷◌, is_nil, list_order, nat_order,
  AllDistinct, insert, lex_at_most, ok, raise, collect, value_error, Str, str, naive, aware, utc,
  seconds, pos, negsuc,
}
use xrp_inteliggence_x.Streams.Model.{
  finite, not_finite, check_limit, freshness_policy, default_policy, WindowState, PointState,
  mark_if, is_future, check_provenance, since, check_present, check_stream,
}
use xrp_inteliggence_x.Streams.Assess.{
  Streams, CrossStreamAlignment, check_all, mixes, latest, earliest, skew_of, from_keys,
  assess_cross_stream_alignment,
}
use xrp_inteliggence_x.Streams.Alignment.{IsAligned, assess-eligible_iff, assess-flags_iff}
use xrp_inteliggence_x.Streams.Totality.{assess-total}

program : Unit {0}
unfolding check_limit freshness_policy mark_if is_future check_provenance since check_present
    check_stream check_all mixes latest earliest skew_of from_keys assess_cross_stream_alignment utc
    insert collect lex_at_most
program = tt

-- A stream that is observed, available and fetched so many seconds in.
abbrev window : ℕ → WindowState
window t = record {
  symbol = str "XRPUSDT";
  observed_at = aware (seconds t);
  last_observed_at = none;
  last_available_at = some (aware (seconds t));
  last_fetched_at = some (aware (seconds t + 1));
  provenance_complete = true;
}

abbrev point : ℕ → PointState
point t = record {
  symbol = str "XRPUSDT";
  observed_at = aware (seconds t);
  available_at = some (aware (seconds t));
  fetched_at = some (aware (seconds t + 1));
}

abbrev fresh : Streams
fresh = record {
  depth = some (window 97);
  order_flow = some (window 98);
  funding = some (point 80);
  open_interest = some (point 90);
}

-- Depth is older than five seconds, there are no trades, and the open interest comes too late.
abbrev stale : Streams
stale = record {
  depth = some (window 94);
  order_flow = none;
  funding = some (point 50);
  open_interest = some (point 100);
}

abbrev alignment : CrossStreamAlignment
alignment = record {
  symbol = str "XRPUSDT";
  prediction_time = seconds 100;
  depth_age = some (pos (seconds 3));
  agg_trades_age = some (pos (seconds 2));
  open_interest_age = some (pos (seconds 10));
  funding_age = some (pos (seconds 20));
  basis_age = some (pos (seconds 20));
  max_observed_skew = some (seconds 18);
  point_in_time_eligible = true;
  evidence_eligible = true;
  regime_eligible = false;
  quality_flags = [];
  execution_weight = 0;
}

assessed : assess_cross_stream_alignment fresh (aware (seconds 100)) none ≡ ok alignment
unfolding program
assessed = refl

stale_flags :
    assess_cross_stream_alignment stale (aware (seconds 100)) none
    ≡ ok (record {
      symbol = str "XRPUSDT";
      prediction_time = seconds 100;
      depth_age = some (pos (seconds 6));
      agg_trades_age = none;
      open_interest_age = some (pos 0);
      funding_age = some (pos (seconds 50));
      basis_age = some (pos (seconds 50));
      max_observed_skew = some (seconds 50);
      point_in_time_eligible = false;
      evidence_eligible = false;
      regime_eligible = false;
      quality_flags =
          str "DEPTH_STALE"
          ∷ str "AGG_TRADES_NO_DATA"
          ∷ str "OPEN_INTEREST_FUTURE_KNOWLEDGE"
          ∷ str "CROSS_STREAM_MISALIGNED"
          ∷ [];
      execution_weight = 0;
    })
unfolding program
stale_flags = refl

naive_time :
    assess_cross_stream_alignment fresh (naive 5) none ≡ raise (value_error "prediction_time")
unfolding program
naive_time = refl

limits :
    freshness_policy (record {
      depth_max_age = finite (pos 5);
      agg_trades_max_age = not_finite;
      open_interest_max_age = finite (pos 5);
      funding_max_age = finite (negsuc 0);
      max_observed_skew = finite (pos 0);
    })
    ≡ raise (value_error "agg_trades_max_age_seconds")
unfolding program
limits = refl

assess-eligible_iff_example : (true ≡ true) ↔ IsAligned fresh (seconds 100) default_policy
assess-eligible_iff_example = assess-eligible_iff fresh (aware (seconds 100)) none assessed

assess-flags_iff_example : ((true ≡ true) ↔ (is_nil {A = Str} [] ≡ true)) × AllDistinct {A = Str} []
assess-flags_iff_example = assess-flags_iff fresh (aware (seconds 100)) none assessed

assess-total_example :
    (a : CrossStreamAlignment) × (assess_cross_stream_alignment fresh (aware (seconds 100)) none
      ≡ ok a)
unfolding program
assess-total_example =
    assess-total fresh (seconds 100) none
      ((tt, tt, tt), ((tt, tt, tt), ((tt, tt, tt), ((tt, tt, tt), tt)))) refl
