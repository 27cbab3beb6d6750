-- ===== src/Horizon/Tests.antt =====
-- The ends of horizons at a leap day.
use xrp_inteliggence_x.Base.{◌≡◌, refl, arith, raise, ok, value_error, overflow_error}
use xrp_inteliggence_x.WalkForward.Rows.{ResearchHorizon}
use xrp_inteliggence_x.Horizon.Calendar.{
  Civil, without_zone, with_zone, is_leap, month_length, replace, next_day, plus_days, plus,
  add_months, end_of, horizon_end_at,
}
use xrp_inteliggence_x.Horizon.Ends.{IsCivil}
use xrp_inteliggence_x.Horizon.Months.{end_of-add_months}
use xrp_inteliggence_x.Horizon.Elapsed.{IsElapsed, horizon_end_at-IsEnd}

-- 2024-02-29 23:30
abbrev leap_day : Civil
leap_day = record { year = 2024; month = 2; day = 29; time = 84600000000 }

leap_day-IsCivil : IsCivil leap_day
unfolding month_length is_leap
leap_day-IsCivil = record {
  year_from = omega arith;
  year_to = omega arith;
  month_from = omega arith;
  month_to = omega arith;
  day_from = omega arith;
  day_to = omega arith;
  time_to = omega arith;
}

horizon_end_at-naive :
    horizon_end_at (without_zone leap_day) ResearchHorizon.d1
    ≡ raise (value_error "prediction_time")
unfolding horizon_end_at
horizon_end_at-naive = refl

horizon_end_at-march :
    horizon_end_at (with_zone leap_day) ResearchHorizon.h1
    ≡ ok (record { year = 2024; month = 3; day = 1; time = 1800000000 })
unfolding horizon_end_at end_of plus plus_days next_day month_length is_leap
horizon_end_at-march = refl

horizon_end_at-year :
    horizon_end_at (with_zone leap_day) ResearchHorizon.y1
    ≡ ok (record { year = 2025; month = 2; day = 28; time = 84600000000 })
unfolding horizon_end_at end_of replace month_length is_leap
horizon_end_at-year = refl

horizon_end_at-last_year :
    horizon_end_at
      (with_zone (record { year = 9999; month = 12; day = 31; time = 0 }))
      ResearchHorizon.d1
    ≡ raise overflow_error
unfolding horizon_end_at end_of plus plus_days next_day month_length is_leap
horizon_end_at-last_year = refl

end_of-add_months_example : end_of ResearchHorizon.y1 leap_day ≡ add_months leap_day 12
end_of-add_months_example = end_of-add_months leap_day leap_day-IsCivil

horizon_end_at-IsEnd_example :
    (e : Civil) × (horizon_end_at (with_zone leap_day) ResearchHorizon.h1 ≡ ok e)
    × IsElapsed leap_day 3600000000 e
horizon_end_at-IsEnd_example =
    horizon_end_at-IsEnd leap_day ResearchHorizon.h1 leap_day-IsCivil (omega arith)
