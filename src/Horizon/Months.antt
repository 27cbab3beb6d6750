-- ===== src/Horizon/Months.antt =====
-- The horizons of a month, of three months and of a year, by the calendar.
use xrp_inteliggence_x.Base.{
  ℕ, ◌+◌, ◌-◌, ◌*◌, ◌/◌, ◌%◌, ◌≤◌, ◌<◌, min, ◌≡◌, inl, inr, refl, false, leb, Bool-cases, ok, raise,
  value_error, leb-false, arith,
}
use xrp_inteliggence_x.WalkForward.Rows.{ResearchHorizon}
use xrp_inteliggence_x.Horizon.Calendar.{Civil, month_length, replace, add_months, end_of}
use xrp_inteliggence_x.Horizon.Ends.{IsCivil, month_length-bounds, replace-IsCivil}

abbrev moved : Civil → ℕ → ℕ → ℕ → Civil
moved c y m d = record { year = y; month = m; day = d; time = c.time }

replace-returns :
    (c : Civil) (y m d : ℕ)
    → 1 ≤ y
    → y ≤ 9999
    → 1 ≤ m
    → m ≤ 12
    → 1 ≤ d
    → d ≤ month_length y m
    → replace c y m d ≡ ok (moved c y m d)
unfolding replace
replace-returns c y m d y1 y2 m1 m2 d1 d2 = ground arith

replace-late :
    (c : Civil) (y m d : ℕ)
    → 9999 < y
    → replace c y m d ≡ raise (value_error "year, month or day is out of range")
unfolding replace
replace-late c y m d late = ground arith

replace-too_long :
    (c : Civil) (y m d : ℕ)
    → month_length y m < d
    → replace c y m d ≡ raise (value_error "year, month or day is out of range")
unfolding replace
replace-too_long c y m d long = ground arith

-- The last day of a month that is missing a year later is the twenty-ninth of February.
month_length-shrinks :
    (y m d : ℕ) → d ≤ month_length y m → month_length (y + 1) m < d → month_length (y + 1) m ≡ 28
unfolding month_length
month_length-shrinks y m d some_day long = ground arith

add_months-year :
    (c : Civil)
    → IsCivil c
    → add_months c 12
      ≡ replace c (c.year + 1) c.month (min c.day (month_length (c.year + 1) c.month))
unfolding add_months
add_months-year c i =
    let y : c.year + (c.month - 1 + 12) / 12 ≡ c.year + 1 = omega arith in
    let m : (c.month - 1 + 12) % 12 + 1 ≡ c.month = omega arith in rw (y, m)

-- A horizon of a year ends where twelve months end, for any valid prediction: also when the
-- day does not exist a year later, and when the calendar ends first and both raise.
pub end_of-add_months : (c : Civil) → IsCivil c → end_of ResearchHorizon.y1 c ≡ add_months c 12
unfolding end_of
end_of-add_months c i =
    let year = add_months-year c i in
    let length = month_length (c.year + 1) c.month in
    elim (Bool-cases (leb (c.year + 1) 9999)) [
      | inl t ↦ elim (Bool-cases (leb c.day length)) [
        | inl s ↦
            let fits =
              replace-returns c (c.year + 1) c.month c.day (omega arith) (ground arith) i.month_from
                i.month_to i.day_from (ground arith) in
            let short : min c.day length ≡ c.day = ground arith in rw (year, short, fits)
        | inr f ↦
            let long = leb-false _ _ f in
            let none_such = replace-too_long c (c.year + 1) c.month c.day long in
            let shrinks = month_length-shrinks c.year c.month c.day i.day_to long in
            let short : min c.day length ≡ 28 = ground arith in rw (year, short, none_such)
      ]
      | inr f ↦
          let late = leb-false _ _ f in
          rw (
            year,
            replace-late c (c.year + 1) c.month c.day late,
            replace-late c (c.year + 1) c.month 28 late,
            replace-late c (c.year + 1) c.month (min c.day length) late,
          )
    ]

-- The date and time `months` months later.
pub record IsMonthsLater (c : Civil) (months : ℕ) (e : Civil) : Type 0 where
  pub valid : IsCivil e
  pub months_later : e.year * 12 + e.month ≡ c.year * 12 + c.month + months
  pub same_day_or_last : e.day ≡ min c.day (month_length e.year e.month)
  pub same_time : e.time ≡ c.time

pub add_months-IsMonthsLater :
    (c : Civil) (months : ℕ)
    → IsCivil c
    → c.year < 9999
    → 1 ≤ months
    → months ≤ 12
    → (e : Civil) × (add_months c months ≡ ok e) × IsMonthsLater c months e
unfolding add_months
add_months-IsMonthsLater c months i early from to =
    let zero_based = c.month - 1 + months in
    let y = c.year + zero_based / 12 in
    let m = zero_based % 12 + 1 in
    let (short, _) = month_length-bounds y m in
    let d = min c.day (month_length y m) in
    let day_from : 1 ≤ d = ground arith in
    let day_to : d ≤ month_length y m = ground arith in
    let returns =
      replace-returns c y m d (omega arith) (omega arith) (omega arith) (omega arith) day_from
        day_to in
    let some_months : leb months 0 ≡ false = ground arith in
    let (valid, _, _, _) = replace-IsCivil c y m d i.time_to returns in
    (
      moved c y m d,
      rw (some_months, returns),
      record {
        valid = valid;
        months_later = omega arith;
        same_day_or_last = refl;
        same_time = refl;
      },
    )
