-- ===== src/Shared/Submission/Gate.antt =====
-- The gate opens exactly for complete requests of a valid profile in a year that has not ended.
use campus_internship.Prelude.{◌<◌, ◌≤◌, ◌≡◌, ◌↔◌, true, false, List, [], ◌∷◌, arith}
use campus_internship.Shared.Enums.{valid}
use campus_internship.Shared.Calendar.{Date}
use campus_internship.Shared.SchoolYear.{start_year, get_current_school_year}
use campus_internship.Shared.SchoolYear.Order.{text_lt-school_year_of}
use campus_internship.Shared.StagePeriod.{Period}
use campus_internship.Shared.StagePeriod.Validity.{ValidPeriods, stage_periods_issues_iff}
use campus_internship.Shared.Submission.{
  Candidate, is_blank, is_before_current_school_year, period_blockers, get_submission_blockers,
}

-- the school year of a date has two years of four digits
abbrev pub FourDigits : Date → Type 0
FourDigits d = (1000 ≤ start_year d) × (start_year d < 9999)

is_before_current_school_year_iff :
    (d today : Date)
    → FourDigits d
    → FourDigits today
    → (is_before_current_school_year d today ≡ true) ↔ (start_year d < start_year today)
unfolding is_before_current_school_year get_current_school_year
is_before_current_school_year_iff d today h k =
    ground (arith, text_lt-school_year_of (start_year d) (start_year today))

-- the periods are valid and of the current school year or a later one
abbrev pub Open : List Period → Date → Type 0
Open [] today = ⊥
Open (p ∷ ps) today = ValidPeriods (p ∷ ps) × (start_year today ≤ start_year p.start_date)

-- the first period lies in such a year
abbrev pub FourDigitsFirst : List Period → Type 0
FourDigitsFirst [] = Unit
FourDigitsFirst (p ∷ ps) = FourDigits p.start_date

pub record Complete (c : Candidate) (today : Date) : Type 0 where
  pub profile : c.profile_status ≡ valid
  pub organism : c.has_organism ≡ true
  pub tutor : c.has_tutor ≡ true
  pub service : is_blank c.service ≡ false
  pub project_type : is_blank c.project_type ≡ false
  pub motivation : is_blank c.motivation ≡ false
  pub periods : Open c.periods today

period_blockers_iff :
    (ps : List Period) (today : Date)
    → FourDigitsFirst ps
    → FourDigits today
    → (period_blockers ps today ≡ []) ↔ Open ps today
unfolding period_blockers
period_blockers_iff [] today h k = ground arith
period_blockers_iff (p ∷ ps) today h k = ground (
  arith,
  stage_periods_issues_iff (p ∷ ps),
  is_before_current_school_year_iff p.start_date today h k,
)

-- There is no blocker exactly for a valid profile, with an organism, a tutor, three texts that are
-- not blank, and valid periods of the current school year or a later one.
pub get_submission_blockers_iff :
    (c : Candidate) (today : Date)
    → FourDigitsFirst c.periods
    → FourDigits today
    → (get_submission_blockers c today ≡ []) ↔ Complete c today
unfolding get_submission_blockers
get_submission_blockers_iff c today h k = ground (arith, period_blockers_iff c.periods today h k)
