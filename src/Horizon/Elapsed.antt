-- ===== src/Horizon/Elapsed.antt =====
-- The horizons of hours, of a day and of a week by the time that elapses, and all seven together.
use xrp_inteliggence_x.Base.{
  ℕ, zero, suc, ◌+◌, ◌-◌, ◌*◌, ◌/◌, ◌%◌, ◌≤◌, ◌<◌, ◌≡◌, inl, inr, refl, ◌∙◌, subst, true, ltb,
  Bool-cases, Result, ok, raise, arith,
}
use xrp_inteliggence_x.WalkForward.Rows.{ResearchHorizon}
use xrp_inteliggence_x.Horizon.Calendar.{
  Civil, with_zone, day_length, hour, month_length, next_day, then_next, plus_days, plus, end_of,
  horizon_end_at,
}
use xrp_inteliggence_x.Horizon.Ends.{
  date_number, IsCivil, next_day-IsNext, month_length-bounds, branches, checked-eq-ok, ok_injective,
  at_time,
}
use xrp_inteliggence_x.Horizon.Months.{IsMonthsLater, add_months-IsMonthsLater, end_of-add_months}

-- The days of the first months of a year, and of the years before one.
unfoldable pub days_of_months : ℕ → ℕ → ℕ
days_of_months y zero = 0
days_of_months y (suc m) = days_of_months y m + month_length y (suc m)

unfoldable pub days_of_years : ℕ → ℕ
days_of_years zero = 0
days_of_years (suc y) = days_of_years y + days_of_months y 12

abbrev pub day_number : Civil → ℕ
day_number c = days_of_years c.year + days_of_months c.year (c.month - 1) + c.day

-- The microseconds up to a date and time.
abbrev pub instant : Civil → ℕ
instant c = day_number c * day_length + c.time

last_month :
    (y m : ℕ) → 1 ≤ m → days_of_months y (m + 1 - 1) ≡ days_of_months y (m - 1) + month_length y m
unfolding days_of_months
last_month y zero from = omega arith
last_month y (suc m) from =
    let next : suc m + 1 - 1 ≡ suc m = omega arith in
    let back : suc m - 1 ≡ m = omega arith in rw (next, back)

last_year :
    (y : ℕ)
    → days_of_years (y + 1) + days_of_months (y + 1) (1 - 1)
      ≡ days_of_years y + (days_of_months y (12 - 1) + month_length y 12)
unfolding days_of_years days_of_months
last_year y = let next : y + 1 ≡ suc y = omega arith in rw next (omega arith)

-- The day that follows has the next number.
day_number-next_day :
    (c : Civil) {e : Civil} → IsCivil c → next_day c ≡ ok e → day_number e ≡ day_number c + 1
unfolding next_day
day_number-next_day c {e} i h = elim (branches (ltb c.day (month_length c.year c.month)) _ _ h) [
  | inl (t, x) ↦ subst (λ e. day_number e ≡ day_number c + 1) (ok_injective x) (omega arith)
  | inr (f, h') ↦ elim (branches (ltb c.month 12) _ _ h') [
    | inl (t, x) ↦
        let last : c.day ≡ month_length c.year c.month = ground arith in
        let before = last_month c.year c.month i.month_from in
        subst (λ e. day_number e ≡ day_number c + 1) (ok_injective x) (omega arith)
    | inr (g, h'') ↦
        let last : c.day ≡ month_length c.year c.month = ground arith in
        let december : c.month ≡ 12 = ground arith in
        let (_, x) = checked-eq-ok (ltb c.year 9999) _ _ h'' in
        subst (λ e. day_number e ≡ day_number c + 1) x (new_year c.year c.month c.day december last)
  ]
]
  where
    new_year :
        (y m d : ℕ)
        → m ≡ 12
        → d ≡ month_length y m
        → days_of_years (y + 1) + days_of_months (y + 1) (1 - 1) + 1
          ≡ days_of_years y + days_of_months y (m - 1) + d + 1
    new_year y m d december last =
        let year = last_year y in
        let last : d ≡ month_length y 12 = subst (λ m. d ≡ month_length y m) december last in
        rw december (omega arith)

plus_days-elapsed :
    (n : ℕ) (c : Civil) {e : Civil}
    → IsCivil c
    → plus_days n c ≡ ok e
    → IsCivil e × (day_number e ≡ day_number c + n) × (e.time ≡ c.time)
unfolding plus_days
plus_days-elapsed zero c {e} i h =
    subst (λ e. IsCivil e × (day_number e ≡ day_number c + 0) × (e.time ≡ c.time)) (ok_injective h)
      (i, omega arith, refl)
plus_days-elapsed (suc n) c {e} i h = next (plus_days n c) (λ d. plus_days-elapsed n c i) h
  where
    next :
        (r : Result Civil)
        → ((d : Civil)
            → r ≡ ok d
            → IsCivil d × (day_number d ≡ day_number c + n) × (d.time ≡ c.time))
        → then_next r ≡ ok e
        → IsCivil e × (day_number e ≡ day_number c + suc n) × (e.time ≡ c.time)
    next (raise w) before h = cc
    next (ok d) before h =
        let (j, far, kept) = before d refl in
        let (k, same_time) = next_day-IsNext d j h in
        let one = day_number-next_day d j h in (k, omega arith, cc)

-- A bound on the date which the next `n` days keep.
abbrev IsNear : ℕ → ℕ → Civil → Type 0
IsNear y n c = date_number c ≤ (y * 12 + 13) * 31 + n

next_day-returns :
    (y n : ℕ) (c : Civil)
    → y < 9999
    → n ≤ 27
    → IsCivil c
    → IsNear y n c
    → (e : Civil) × (next_day c ≡ ok e) × IsNear y (suc n) e
unfolding next_day
next_day-returns y n c early few i near =
    let (short, long) = month_length-bounds c.year c.month in
    elim (Bool-cases (ltb c.day (month_length c.year c.month))) [
      | inl t ↦ (record c { day = c.day + 1 }, rw t, omega arith)
      | inr f ↦ elim (Bool-cases (ltb c.month 12)) [
        | inl t ↦ (record c { month = c.month + 1; day = 1 }, rw (f, t), ground arith)
        | inr g ↦
            let before : ltb c.year 9999 ≡ true = ground arith in
            (record c { year = c.year + 1; month = 1; day = 1 }, rw (f, g, before), ground arith)
      ]
    ]

plus_days-returns :
    (y n : ℕ) (c : Civil)
    → y < 9999
    → n ≤ 28
    → IsCivil c
    → IsNear y 0 c
    → (e : Civil) × (plus_days n c ≡ ok e) × IsNear y n e
unfolding plus_days
plus_days-returns y zero c early few i near = (c, refl, near)
plus_days-returns y (suc n) c early few i near =
    let (d, days, close) = plus_days-returns y n c early (omega arith) i near in
    let (valid, _, _) = plus_days-elapsed n c i days in
    let (e, next, still) = next_day-returns y n d early (omega arith) valid close in
    (e, rw days next, still)

-- A later moment by an exact number of microseconds.
abbrev pub IsElapsed : Civil → ℕ → Civil → Type 0
IsElapsed c delta e = IsCivil e × (instant e ≡ instant c + delta)

plus-IsElapsed :
    (c : Civil) (delta : ℕ)
    → IsCivil c
    → c.year < 9999
    → delta ≤ 27 * day_length
    → (e : Civil) × (plus c delta ≡ ok e) × IsElapsed c delta e
unfolding plus
plus-IsElapsed c delta i early few =
    let (short, long) = month_length-bounds c.year c.month in
    let days = (c.time + delta) / day_length in
    let start = record c { time = (c.time + delta) % day_length } in
    let valid = at_time c _ i (omega arith) in
    let (e, ends, _) =
      plus_days-returns c.year days start early (omega arith) valid (omega arith) in
    let (j, far, at) = plus_days-elapsed days start valid ends in (e, ends, (j, omega arith))

-- What the end `e` of each horizon is.
abbrev pub IsEnd : Civil → ResearchHorizon → Civil → Type 0
IsEnd c ResearchHorizon.h1 e = IsElapsed c hour e
IsEnd c ResearchHorizon.h4 e = IsElapsed c (4 * hour) e
IsEnd c ResearchHorizon.d1 e = IsElapsed c day_length e
IsEnd c ResearchHorizon.w1 e = IsElapsed c (7 * day_length) e
IsEnd c ResearchHorizon.m1 e = IsMonthsLater c 1 e
IsEnd c ResearchHorizon.m3 e = IsMonthsLater c 3 e
IsEnd c ResearchHorizon.y1 e = IsMonthsLater c 12 e

-- Of a valid prediction before the last year of the calendar, horizon_end_at returns the end of
-- each horizon. That of one hour, four hours, a day or a week is a valid moment exactly that long
-- after the prediction, across the ends of months, leap days and years. That of a month, three
-- months or a year is a valid moment at the same time of the day, so many months later, on the
-- same day of the month or on its last day if it is shorter.
pub horizon_end_at-IsEnd :
    (c : Civil) (h : ResearchHorizon)
    → IsCivil c
    → c.year < 9999
    → (e : Civil) × (horizon_end_at (with_zone c) h ≡ ok e) × IsEnd c h e
unfolding horizon_end_at end_of
horizon_end_at-IsEnd c ResearchHorizon.h1 i early = plus-IsElapsed c hour i early (omega arith)
horizon_end_at-IsEnd c ResearchHorizon.h4 i early =
    plus-IsElapsed c (4 * hour) i early (omega arith)
horizon_end_at-IsEnd c ResearchHorizon.d1 i early =
    plus-IsElapsed c day_length i early (omega arith)
horizon_end_at-IsEnd c ResearchHorizon.w1 i early =
    plus-IsElapsed c (7 * day_length) i early (omega arith)
horizon_end_at-IsEnd c ResearchHorizon.m1 i early =
    add_months-IsMonthsLater c 1 i early (omega arith) (omega arith)
horizon_end_at-IsEnd c ResearchHorizon.m3 i early =
    add_months-IsMonthsLater c 3 i early (omega arith) (omega arith)
horizon_end_at-IsEnd c ResearchHorizon.y1 i early =
    let (e, ends, later) = add_months-IsMonthsLater c 12 i early (omega arith) (omega arith) in
    (e, end_of-add_months c i ∙ ends, later)
