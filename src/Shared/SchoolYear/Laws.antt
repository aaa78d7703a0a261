-- ===== src/Shared/SchoolYear/Laws.antt =====
-- Where a school year starts and ends, and how its two semesters tile it.

use mathlib.Core.List.{append-nil, append_assoc}
use campus_internship.Prelude.{
  ℕ, ◌+◌, ◌-◌, ◌<◌, ◌≤◌, ◌≡◌, sym, ◌∙◌, true, some, [], ◌∷◌, ◌++◌, Text, All, arith, ap, leb,
  Bool-cases, inl, inr,
}
use campus_internship.Shared.Calendar.{
  Date, utc_full_year, utc_full_year_bounds, is_before_september, utc_september, utc_january,
  days_before_september, days_before_year, date_utc_year,
}
use campus_internship.Shared.SchoolYear.{
  split_from, split_dash, start_year, school_year_of, get_current_school_year,
  get_school_year_start, get_school_year_end, get_semester_boundary, date_utc_september,
  date_utc_january,
}
use campus_internship.Shared.SchoolYear.Decimal.{show, is_digit, number-show, show-All_digits}

-- digits are not separators
split_from_digits :
    (cur s : Text) → All (λ c. is_digit c ≡ true) s → split_from cur s ≡ (cur ++ s) ∷ []
unfolding split_from
split_from_digits cur [] h = ap (λ t. t ∷ []) (sym (append-nil cur))
split_from_digits cur (c ∷ s) h =
    ground (arith, h.0, split_from_digits (cur ++ c ∷ []) s h.1, append_assoc cur (c ∷ []) s)

split_from_dash :
    (cur s t : Text)
    → All (λ c. is_digit c ≡ true) s
    → split_from cur (s ++ b'-' ∷ t) ≡ (cur ++ s) ∷ split_from [] t
unfolding split_from
split_from_dash cur [] t h = ap (λ u. u ∷ split_from [] t) (sym (append-nil cur))
split_from_dash cur (c ∷ s) t h =
    ground (arith, h.0, split_from_dash (cur ++ c ∷ []) s t h.1, append_assoc cur (c ∷ []) s)

pub split_dash-school_year_of : (y : ℕ) → split_dash (school_year_of y) ≡ show y ∷ show (y + 1) ∷ []
unfolding split_dash school_year_of
split_dash-school_year_of y =
    rw (split_from_dash [] (show y) (show (y + 1)) (show-All_digits y))
      (rw (split_from_digits [] (show (y + 1)) (show-All_digits (y + 1))))

-- from the year 100 on `Date.UTC` takes a year for itself
pub date_utc_year_late : (y : ℕ) → 100 ≤ y → date_utc_year y ≡ y
unfolding date_utc_year
date_utc_year_late y h = ground arith

module _ (y : ℕ) where
  pub get_school_year_start-school_year_of :
      get_school_year_start (school_year_of y) ≡ some (date_utc_september y)
  unfolding get_school_year_start
  get_school_year_start-school_year_of = rw (split_dash-school_year_of, number-show)

  pub get_school_year_end-school_year_of :
      get_school_year_end (school_year_of y) ≡ some (date_utc_september (y + 1))
  unfolding get_school_year_end
  get_school_year_end-school_year_of = rw (split_dash-school_year_of, number-show)

  pub get_semester_boundary-school_year_of :
      get_semester_boundary (school_year_of y) ≡ some (date_utc_january (y + 1))
  unfolding get_semester_boundary
  get_semester_boundary-school_year_of = rw (split_dash-school_year_of, number-show)

september_in_year :
    (y : ℕ)
    → (days_before_year y ≤ days_before_september y)
      × (days_before_september y ≤ days_before_year (y + 1))
      × (days_before_september y < days_before_september (y + 1))
unfolding days_before_september
september_in_year y = omega arith

september_mono : (a b : ℕ) → a ≤ b → days_before_september a ≤ days_before_september b
unfolding days_before_september
september_mono a b h = omega arith

pub utc_september_mono : (a b : ℕ) → a ≤ b → utc_september a ≤ utc_september b
unfolding utc_september
utc_september_mono a b h = omega (arith, september_mono a b h)

-- stepping back a year is stepping into the previous September
september_back : (y : ℕ) → 0 < y → days_before_september (y - 1) ≤ days_before_year y
unfolding days_before_september
september_back y h = omega arith

-- The instants of a school year are those from its September 1st to the next, excluded.
pub start_year_bounds :
    (d : Date)
    → utc_september 0 ≤ d
    → (utc_september (start_year d) ≤ d) × (d < utc_september (start_year d + 1))
unfolding start_year is_before_september utc_september utc_january
start_year_bounds d h = ground (
  arith,
  utc_full_year_bounds d,
  september_in_year (utc_full_year d),
  september_in_year (utc_full_year d + 1),
  september_mono (utc_full_year d) 0,
  september_in_year (utc_full_year d - 1),
  september_mono (utc_full_year d) (utc_full_year d - 1 + 1),
  september_mono (utc_full_year d - 1 + 1) (utc_full_year d),
  september_back (utc_full_year d),
)

pub start_year_unique :
    (d : Date) (y : ℕ)
    → utc_september 0 ≤ d
    → utc_september y ≤ d
    → d < utc_september (y + 1)
    → start_year d ≡ y
unfolding utc_september
start_year_unique d y h lo hi = ground (
  arith,
  start_year_bounds d h,
  september_mono (start_year d + 1) y,
  september_mono (y + 1) (start_year d),
)

module _ (d : Date) where
  pub get_school_year_start-get_current_school_year :
      get_school_year_start (get_current_school_year d) ≡ some (date_utc_september (start_year d))
  unfolding get_current_school_year
  get_school_year_start-get_current_school_year =
      get_school_year_start-school_year_of (start_year d)

  pub get_school_year_end-get_current_school_year :
      get_school_year_end (get_current_school_year d) ≡ some (date_utc_september (start_year d + 1))
  unfolding get_current_school_year
  get_school_year_end-get_current_school_year = get_school_year_end-school_year_of (start_year d)

  pub get_semester_boundary-get_current_school_year :
      get_semester_boundary (get_current_school_year d) ≡ some (date_utc_january (start_year d + 1))
  unfolding get_current_school_year
  get_semester_boundary-get_current_school_year =
      get_semester_boundary-school_year_of (start_year d)

module _ (d : Date) (late : 100 ≤ start_year d) where
  pub get_school_year_start_late :
      get_school_year_start (get_current_school_year d) ≡ some (utc_september (start_year d))
  get_school_year_start_late =
      get_school_year_start-get_current_school_year d
      ∙ ap (λ y. some (utc_september y)) (date_utc_year_late (start_year d) late)

  pub get_school_year_end_late :
      get_school_year_end (get_current_school_year d) ≡ some (utc_september (start_year d + 1))
  get_school_year_end_late =
      get_school_year_end-get_current_school_year d
      ∙ ap (λ y. some (utc_september y)) (date_utc_year_late (start_year d + 1) (omega arith))

  pub get_semester_boundary_late :
      get_semester_boundary (get_current_school_year d) ≡ some (utc_january (start_year d + 1))
  get_semester_boundary_late =
      get_semester_boundary-get_current_school_year d
      ∙ ap (λ y. some (utc_january y)) (date_utc_year_late (start_year d + 1) (omega arith))

-- a date from September of the year 100 on is in a school year that starts in that year or later
pub start_year_late : (d : Date) → utc_september 100 ≤ d → 100 ≤ start_year d
unfolding utc_september
start_year_late d h = ground (
  arith,
  start_year_bounds d (omega (arith, september_mono 0 100)),
  september_mono (start_year d + 1) 100,
)

-- a date is before the school year that follows its own, and before every later one
pub before_later_year : (d : Date) (y : ℕ) → start_year d < y → d < utc_september y
before_later_year d y h = elim (Bool-cases (leb (utc_september 0) d)) [
  | inl t ↦
      let bounds = start_year_bounds d (ground arith) in
      omega (arith, utc_september_mono (start_year d + 1) y, bounds.1)
  | inr f ↦ let early : d < utc_september 0 = ground arith in omega (arith, utc_september_mono 0 y)
]

-- September 1st, January 1st and the next September 1st follow one another.
pub january_in_school_year :
    (y : ℕ)
    → (utc_september y < utc_january (y + 1)) × (utc_january (y + 1) < utc_september (y + 1))
unfolding utc_september utc_january days_before_september
january_in_school_year y = omega arith

school_year_of_start :
    (d : Date) (y : ℕ) → y ≡ start_year d → school_year_of y ≡ get_current_school_year d
unfolding get_current_school_year
school_year_of_start d y e = ap school_year_of e

-- For a date from September of the year 100 on, the bounds of its current school year are dates, the
-- date lies in the half-open interval between them, and of all years only the one in which that
-- school year starts has its two Septembers around the date.
pub school_year_tiles :
    (d : Date)
    → utc_september 100 ≤ d
    → (lo hi : Date) × (get_school_year_start (get_current_school_year d) ≡ some lo)
      × (get_school_year_end (get_current_school_year d) ≡ some hi)
      × (lo ≤ d)
      × (d < hi)
      × ((y : ℕ)
          → utc_september y ≤ d
          → d < utc_september (y + 1)
          → school_year_of y ≡ get_current_school_year d)
school_year_tiles d h = (
  utc_september (start_year d),
  utc_september (start_year d + 1),
  get_school_year_start_late d (start_year_late d h),
  get_school_year_end_late d (start_year_late d h),
  (start_year_bounds d (from_100 h)).0,
  (start_year_bounds d (from_100 h)).1,
  λ y lo hi. school_year_of_start d y (sym (start_year_unique d y (from_100 h) lo hi)),
)
  where
    from_100 : utc_september 100 ≤ d → utc_september 0 ≤ d
    from_100 k = omega (arith, utc_september_mono 0 100)
