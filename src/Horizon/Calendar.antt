-- ===== src/Horizon/Calendar.antt =====
-- `horizon_end_at` and `_add_months`, with what they use of `datetime` and `calendar`.
use xrp_inteliggence_x.Base.{
  ℕ, zero, suc, ◌+◌, ◌-◌, ◌*◌, ◌/◌, ◌%◌, min, Bool, not, ◌&&◌, ◌||◌, ltb, leb, ◌==◌, if◌then◌else◌,
  Result, ok, raise, value_error, overflow_error,
}
use xrp_inteliggence_x.WalkForward.Rows.{ResearchHorizon}

-- A date and a time of the day in microseconds, in UTC.
pub record Civil : Type 0 where
  pub year : ℕ
  pub month : ℕ
  pub day : ℕ
  pub time : ℕ

-- A `datetime`; an aware one is taken to UTC.
pub data Moment : Type 0 where
  without_zone : Civil → Moment
  with_zone : Civil → Moment

abbrev pub day_length : ℕ
day_length = 86400000000

abbrev pub hour : ℕ
hour = 3600000000

-- `calendar.isleap`
unfoldable pub is_leap : ℕ → Bool
is_leap y = y % 4 == 0 && (not (y % 100 == 0) || y % 400 == 0)

-- `calendar.monthrange(year, month)[1]`
unfoldable pub month_length : ℕ → ℕ → ℕ
month_length y m =
    if m == 2
    then (if is_leap y then 29 else 28)
    else (if m == 4 || m == 6 || m == 9 || m == 11 then 30 else 31)

-- `value.replace(year=…, month=…, day=…)`
unfoldable pub replace : Civil → ℕ → ℕ → ℕ → Result Civil
replace c y m d =
    if leb 1 y && leb y 9999 && leb 1 m && leb m 12 && leb 1 d && leb d (month_length y m)
    then ok (record { year = y; month = m; day = d; time = c.time })
    else raise (value_error "year, month or day is out of range")

-- The same time on the next day.
unfoldable pub next_day : Civil → Result Civil
next_day c =
    if ltb c.day (month_length c.year c.month)
    then ok (record c { day = c.day + 1 })
    else (if ltb c.month 12
        then ok (record c { month = c.month + 1; day = 1 })
        else (if ltb c.year 9999
            then ok (record c { year = c.year + 1; month = 1; day = 1 })
            else raise overflow_error))

abbrev pub then_next : Result Civil → Result Civil
then_next (raise e) = raise e
then_next (ok c) = next_day c

unfoldable pub plus_days : ℕ → Civil → Result Civil
plus_days zero c = ok c
plus_days (suc n) c = then_next (plus_days n c)

-- `value + timedelta(microseconds=delta)`
unfoldable pub plus : Civil → ℕ → Result Civil
plus c delta =
    plus_days ((c.time + delta) / day_length) (record c { time = (c.time + delta) % day_length })

-- `_add_months`
unfoldable pub add_months : Civil → ℕ → Result Civil
add_months c months =
    if leb months 0
    then raise (value_error "months must be positive")
    else (let zero_based = c.month - 1 + months in
        let year = c.year + zero_based / 12 in
        let month = zero_based % 12 + 1 in
        replace c year month (min c.day (month_length year month)))

-- `except ValueError`
abbrev pub on_value_error : Result Civil → Result Civil → Result Civil
on_value_error (ok c) other = ok c
on_value_error (raise e) other = other

unfoldable pub end_of : ResearchHorizon → Civil → Result Civil
end_of ResearchHorizon.h1 c = plus c hour
end_of ResearchHorizon.h4 c = plus c (4 * hour)
end_of ResearchHorizon.d1 c = plus c day_length
end_of ResearchHorizon.w1 c = plus c (7 * day_length)
end_of ResearchHorizon.m1 c = add_months c 1
end_of ResearchHorizon.m3 c = add_months c 3
end_of ResearchHorizon.y1 c =
    on_value_error (replace c (c.year + 1) c.month c.day) (replace c (c.year + 1) c.month 28)

unfoldable pub horizon_end_at : Moment → ResearchHorizon → Result Civil
horizon_end_at (without_zone c) h = raise (value_error "prediction_time")
horizon_end_at (with_zone c) h = end_of h c
