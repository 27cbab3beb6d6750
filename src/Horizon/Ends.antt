-- ===== src/Horizon/Ends.antt =====
-- Valid dates: what `replace` and the next day leave of one.
use xrp_inteliggence_x.Base.{
  ℕ, ◌+◌, ◌*◌, ◌≤◌, ◌<◌, ◌≡◌, ◌⊎◌, inl, inr, refl, subst, Bool, true, false, ltb, if◌then◌else◌,
  Result, ok, raise, Error, arith,
}
use xrp_inteliggence_x.Horizon.Calendar.{Civil, day_length, month_length, replace, next_day}

pub record IsCivil (c : Civil) : Type 0 where
  pub year_from : 1 ≤ c.year
  pub year_to : c.year ≤ 9999
  pub month_from : 1 ≤ c.month
  pub month_to : c.month ≤ 12
  pub day_from : 1 ≤ c.day
  pub day_to : c.day ≤ month_length c.year c.month
  pub time_to : c.time < day_length

-- Dates in the order of their numbers, which leave room for the longest month.
abbrev pub date_number : Civil → ℕ
date_number c = (c.year * 12 + c.month) * 31 + c.day

-- A month has 28 to 31 days, and as many in each year unless it is February.
pub month_length-bounds : (y m : ℕ) → (28 ≤ month_length y m) × (month_length y m ≤ 31)
unfolding month_length
month_length-bounds y m = ground arith

pub branches :
    (b : Bool) (x y : Result Civil) {r : Result Civil}
    → (if b then x else y) ≡ r
    → ((b ≡ true) × (x ≡ r)) ⊎ ((b ≡ false) × (y ≡ r))
branches true x y h = inl (refl, h)
branches false x y h = inr (refl, h)

pub ok_injective : {c e : Civil} → ok c ≡ ok e → c ≡ e
ok_injective h = cc

pub checked-eq-ok :
    (b : Bool) (x : Civil) (w : Error) {e : Civil}
    → (if b then ok x else raise w) ≡ ok e
    → (b ≡ true) × (x ≡ e)
checked-eq-ok true x w h = (refl, cc)
checked-eq-ok false x w h = cc

pub replace-IsCivil :
    (c : Civil) (y m d : ℕ) {e : Civil}
    → c.time < day_length
    → replace c y m d ≡ ok e
    → IsCivil e × (e.year ≡ y) × (e.month ≡ m) × (e.day ≡ d)
unfolding replace
replace-IsCivil c y m d {e} t h =
    let (b, x) = checked-eq-ok _ (record { year = y; month = m; day = d; time = c.time }) _ h in
    subst (λ e. IsCivil e × (e.year ≡ y) × (e.month ≡ m) × (e.day ≡ d)) x
      (
        record {
          year_from = ground arith;
          year_to = ground arith;
          month_from = ground arith;
          month_to = ground arith;
          day_from = ground arith;
          day_to = ground arith;
          time_to = t;
        },
        refl,
        refl,
        refl,
      )

abbrev pub IsNext : Civil → Civil → Type 0
IsNext c e = IsCivil e × (e.time ≡ c.time)

pub next_day-IsNext : (c : Civil) {e : Civil} → IsCivil c → next_day c ≡ ok e → IsNext c e
unfolding next_day
next_day-IsNext c {e} i h =
    let (short, long) = month_length-bounds c.year c.month in
    elim (branches (ltb c.day (month_length c.year c.month)) _ _ h) [
      | inl (t, x) ↦ subst (IsNext c) (ok_injective x) (
        record {
          year_from = i.year_from;
          year_to = i.year_to;
          month_from = i.month_from;
          month_to = i.month_to;
          day_from = omega arith;
          day_to = ground arith;
          time_to = i.time_to;
        },
        refl,
      )
      | inr (f, h') ↦ elim (branches (ltb c.month 12) _ _ h') [
        | inl (t, x) ↦
            let (some_days, _) = month_length-bounds c.year (c.month + 1) in
            subst (IsNext c) (ok_injective x) (
              record {
                year_from = i.year_from;
                year_to = i.year_to;
                month_from = omega arith;
                month_to = ground arith;
                day_from = omega arith;
                day_to = omega arith;
                time_to = i.time_to;
              },
              refl,
            )
        | inr (f, h'') ↦
            let (t, x) = checked-eq-ok (ltb c.year 9999) _ _ h'' in
            let (some_days, _) = month_length-bounds (c.year + 1) 1 in
            subst (IsNext c) x (
              record {
                year_from = omega arith;
                year_to = ground arith;
                month_from = omega arith;
                month_to = omega arith;
                day_from = omega arith;
                day_to = omega arith;
                time_to = i.time_to;
              },
              refl,
            )
      ]
    ]

pub at_time : (c : Civil) (t : ℕ) → IsCivil c → t < day_length → IsCivil (record c { time = t })
at_time c t i below = record {
  year_from = i.year_from;
  year_to = i.year_to;
  month_from = i.month_from;
  month_to = i.month_to;
  day_from = i.day_from;
  day_to = i.day_to;
  time_to = below;
}
