-- ===== src/Shared/SchoolYear.antt =====
-- packages/shared/src/schemas/school-year.schema.ts: school years "YYYY-YYYY" as text.
pub mod Decimal
pub mod Laws
pub mod Order
pub mod Format
use mathlib.Core.Option
use campus_internship.Prelude.{
  ℕ, ◌+◌, ◌-◌, ◌==◌, Bool, true, false, ◌&&◌, Option, none, some, List, [], ◌∷◌, ◌++◌,
  if◌then◌else◌, Text, trim, leb, all, length,
}
use campus_internship.Shared.Calendar.{
  Date, utc_full_year, is_before_september, utc_september, utc_january, date_utc_year,
}
use Decimal.{show, number, is_digit}

abbrev pub SchoolYear : Type 0
SchoolYear = Text

-- `split("-")`
split_from : Text → Text → List Text
split_from cur [] = cur ∷ []
split_from cur (c ∷ s) =
    let closed = cur ∷ split_from [] s in
    let longer = split_from (cur ++ c ∷ []) s in if c == b'-' then closed else longer

pub split_dash : Text → List Text
unfolding split_from
split_dash s = split_from [] s

-- `Number(parts[0])` and `Number(parts[1])`; `none` is `NaN`
abbrev first_part : List Text → Option ℕ
first_part [] = none
first_part (s ∷ _) = number s

abbrev second_part : List Text → Option ℕ
second_part (s ∷ t ∷ _) = number t
second_part _ = none

-- the year in which the school year of a date starts; before September of the year 0 that is the year
-- -1, for which 0 stands here
unfoldable pub start_year : Date → ℕ
start_year d = let year = utc_full_year d in if is_before_september d then year - 1 else year

-- the template `${startYear}-${startYear + 1}`
unfoldable pub school_year_of : ℕ → SchoolYear
school_year_of y = show y ++ (b'-' ∷ show (y + 1))

-- `getCurrentSchoolYear`
unfoldable pub get_current_school_year : Date → SchoolYear
unfolding start_year
get_current_school_year date = school_year_of (start_year date)

-- `Date.UTC(year, 8, 1)` and `Date.UTC(year, 0, 1)`
abbrev pub date_utc_september : ℕ → Date
date_utc_september year = utc_september (date_utc_year year)

abbrev pub date_utc_january : ℕ → Date
date_utc_january year = utc_january (date_utc_year year)

-- `getSchoolYearEnd`
unfoldable pub get_school_year_end : SchoolYear → Option Date
get_school_year_end s = Option.map date_utc_september (second_part (split_dash s))

-- `getSchoolYearStart`
unfoldable pub get_school_year_start : SchoolYear → Option Date
get_school_year_start s = Option.map date_utc_september (first_part (split_dash s))

-- `getSemesterBoundary`
unfoldable pub get_semester_boundary : SchoolYear → Option Date
get_semester_boundary s = Option.map date_utc_january (second_part (split_dash s))

-- The regular expression `^\d{4}-\d{4}$`, then the refinement on the two years.
unfoldable pub matches_format : Text → Bool
matches_format (a ∷ b ∷ c ∷ d ∷ e ∷ f ∷ g ∷ h ∷ i ∷ []) =
    all is_digit (a ∷ b ∷ c ∷ d ∷ []) && (e == b'-') && all is_digit (f ∷ g ∷ h ∷ i ∷ [])
matches_format _ = false

abbrev is_next : Option ℕ → Option ℕ → Bool
is_next (some a) (some b) = b == a + 1
is_next _ _ = false

-- `schoolYearSchema`: the trimmed text, if it is one.
unfoldable pub school_year_schema : Text → Option SchoolYear
school_year_schema s =
    let value = trim s in
    if matches_format value
      && is_next (first_part (split_dash value)) (second_part (split_dash value))
    then some value
    else none
