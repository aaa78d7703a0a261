-- ===== src/Api/Profiles/Rollover/Laws.antt =====
-- What the yearly rollover does to a profile.
use campus_internship.Prelude.{◌≡◌, ◌≢◌, ◌⊎◌, ◌↔◌, true, Option, none, some, text_eq_iff, arith}
use campus_internship.Shared.Enums.{ProfileStatus, pending_validation, valid}
use campus_internship.Shared.Calendar.{Date}
use campus_internship.Shared.SchoolYear.{SchoolYear, get_current_school_year}
use campus_internship.Api.Schema.{StudentProfile}
use campus_internship.Api.Profiles.Rollover.{rolled_over, is_year}

-- the status after the rollover
abbrev pub status_then : Date → StudentProfile → ProfileStatus
status_then now p = elim (rolled_over now p) [ none ↦ p.profile_status | some status ↦ status ]

year_iff : (o : Option SchoolYear) (year : SchoolYear) → (is_year o year ≡ true) ↔ (o ≡ some year)
year_iff none year = ground arith
year_iff (some y) year = ground (arith, text_eq_iff y year)

-- After the rollover, a profile is valid or pending exactly if it was so and belongs to the current
-- school year.
pub rollover_iff :
    (now : Date) (p : StudentProfile)
    → ((status_then now p ≡ valid) ⊎ (status_then now p ≡ pending_validation)) ↔ (
        (p.profile_year ≡ some (get_current_school_year now))
        × ((p.profile_status ≡ valid) ⊎ (p.profile_status ≡ pending_validation)))
unfolding rolled_over
rollover_iff now p = ground (arith, year_iff p.profile_year (get_current_school_year now))

-- A profile that the rollover moved is not moved again by one at any time, until something else
-- changes its status.
pub rollover_once :
    (now later : Date) (p : StudentProfile)
    → rolled_over now p ≢ none
    → rolled_over later (record p { profile_status = status_then now p }) ≡ none
unfolding rolled_over
rollover_once now later p h = ground arith
