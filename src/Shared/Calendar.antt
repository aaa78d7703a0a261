-- ===== src/Shared/Calendar.antt =====
-- What the source uses of JavaScript's `Date`: an instant is the number of milliseconds since
-- the start of the year 0 in UTC, in the proleptic Gregorian calendar (earlier ones are left out).
use campus_internship.Prelude.{
  ℕ, ◌+◌, ◌-◌, ◌*◌, ◌/◌, ◌≤◌, ◌<◌, Bool, arith, ltb, leb, if◌then◌else◌,
}

abbrev pub Date : Type 0
Date = ℕ

abbrev pub ms_per_day : ℕ
ms_per_day = 86400000

-- The days before January 1st of a year: one leap day for each earlier leap year, the year 0 one.
unfoldable pub days_before_year : ℕ → ℕ
days_before_year y = 365 * y + (y + 3) / 4 + (y + 399) / 400 - (y + 99) / 100

-- From the start of a year to September 1st.
unfoldable pub days_before_september : ℕ → ℕ
unfolding days_before_year
days_before_september y = days_before_year (y + 1) - 122

-- `Date.UTC` takes the years 0 to 99 for 1900 to 1999.
unfoldable pub date_utc_year : ℕ → ℕ
date_utc_year y = if ltb y 100 then 1900 + y else y

-- January 1st and September 1st of a year
unfoldable pub utc_january : ℕ → Date
utc_january y = days_before_year y * ms_per_day

unfoldable pub utc_september : ℕ → Date
utc_september y = days_before_september y * ms_per_day

-- `getUTCFullYear`: an estimate by the mean length of a year, corrected by at most one.
year_of_day : ℕ → ℕ
year_of_day n =
    let e = n * 400 / 146097 in
    if ltb n (days_before_year e)
    then e - 1
    else if leb (days_before_year (e + 1)) n
    then e + 1
    else e

unfoldable pub utc_full_year : Date → ℕ
unfolding year_of_day
utc_full_year d = year_of_day (d / ms_per_day)

-- `getUTCMonth() < 8`
unfoldable pub is_before_september : Date → Bool
is_before_september d = ltb (d / ms_per_day) (days_before_september (utc_full_year d))

year_of_day_bounds :
    (n : ℕ) → (days_before_year (year_of_day n) ≤ n) × (n < days_before_year (year_of_day n + 1))
unfolding year_of_day days_before_year
year_of_day_bounds n = ground arith

pub utc_full_year_bounds :
    (d : Date) → (utc_january (utc_full_year d) ≤ d) × (d < utc_january (utc_full_year d + 1))
unfolding utc_full_year utc_january
utc_full_year_bounds d = omega (arith, year_of_day_bounds (d / ms_per_day))
