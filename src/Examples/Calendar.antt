-- ===== src/Examples/Calendar.antt =====
-- The theorems on the shared rules, on dates of 2025 and 2026.
use campus_internship.Prelude.{
  ℕ, ◌+◌, ◌<◌, ◌≤◌, ◌≡◌, ◌↔◌, refl, true, false, some, none, List, [], ◌∷◌, All, Some, text, arith,
}
use campus_internship.Shared.Enums.{s1, s2, valid}
use campus_internship.Shared.Calendar.{
  Date, utc_january, utc_september, days_before_september, days_before_year, utc_full_year,
}
use campus_internship.Shared.SchoolYear.{
  start_year, school_year_of, get_current_school_year, get_school_year_start, get_school_year_end,
}
use campus_internship.Shared.SchoolYear.Laws.{
  school_year_tiles, start_year_unique, utc_september_mono,
}
use campus_internship.Shared.StagePeriod.{Period, stage_periods_issues, derive_semester}
use campus_internship.Shared.StagePeriod.Validity.{ValidPeriods, stage_periods_issues_iff}
use campus_internship.Shared.StagePeriod.Semesters.{
  boundary_of, derive_semester_iff, january_first_gets_s1,
}
use campus_internship.Shared.Submission.{Candidate, get_submission_blockers}
use campus_internship.Shared.Submission.Gate.{FourDigits, Complete, get_submission_blockers_iff}
use campus_internship.Api.Snapshot.{parse_stage_snapshot, snapshot_json}
use campus_internship.Api.Snapshot.RoundTrip.{parse_stage_snapshot-json}
use campus_internship.Examples.Fixtures.{
  day_2026, env, the_period, the_snapshot, year_2025_accepted,
}

y2026 : utc_full_year (utc_september 2026) ≡ 2026
unfolding utc_full_year utc_september days_before_september days_before_year
y2026 = refl

school_year_tiles_example :
    (lo hi : Date) × (get_school_year_start (get_current_school_year (day_2026 40)) ≡ some lo)
    × (get_school_year_end (get_current_school_year (day_2026 40)) ≡ some hi)
    × (lo ≤ day_2026 40)
    × (day_2026 40 < hi)
    × ((y : ℕ)
        → utc_september y ≤ day_2026 40
        → day_2026 40 < utc_september (y + 1)
        → school_year_of y ≡ get_current_school_year (day_2026 40))
unfolding utc_september days_before_september days_before_year
school_year_tiles_example = school_year_tiles (day_2026 40) (omega arith)

abbrev two_periods : List Period
two_periods = the_period ∷ record { start_date = day_2026 80; end_date = day_2026 90 } ∷ []

stage_periods_issues_iff_example :
    (stage_periods_issues two_periods ≡ []) ↔ ValidPeriods two_periods
stage_periods_issues_iff_example = stage_periods_issues_iff two_periods

derive_semester_iff_example : (derive_semester two_periods ≡ some s2) ↔ (
    All (λ (q : Period). boundary_of two_periods ≤ q.start_date) two_periods
    × Some (λ (q : Period). boundary_of two_periods < q.end_date) two_periods)
unfolding utc_september days_before_september days_before_year
derive_semester_iff_example =
    derive_semester_iff the_period
      (record { start_date = day_2026 80; end_date = day_2026 90 } ∷ []) (omega arith)

abbrev january_first : Period
january_first = record { start_date = utc_january 2026; end_date = utc_january 2026 }

january_first_gets_s1_example :
    (stage_periods_issues (january_first ∷ []) ≡ [])
    × (derive_semester (january_first ∷ []) ≡ some s1)
january_first_gets_s1_example = january_first_gets_s1 2025 january_first (omega arith) refl refl

abbrev candidate : Candidate
candidate = record {
  profile_status = valid;
  has_organism = true;
  has_tutor = false;
  service = some (text "APA");
  project_type = some (text "Adulte");
  motivation = none;
  periods = two_periods;
}

pub september_2025 : utc_september 2025 ≡ 63923904000000
unfolding utc_september days_before_september days_before_year
september_2025 = refl

pub september_0 : utc_september 0 ≡ 21081600000
unfolding utc_september days_before_september days_before_year
september_0 = refl

pub september_2026 : utc_september 2026 ≡ 63955440000000
unfolding utc_september days_before_september days_before_year
september_2026 = refl

pub start_year_2025 :
    (d : Date) → utc_september 2025 ≤ d → d < utc_september 2026 → start_year d ≡ 2025
start_year_2025 d h k = start_year_unique d 2025 (omega (arith, utc_september_mono 0 2025)) h k

starts_in_2025 : (d : Date) → utc_september 2025 ≤ d → d < utc_september 2026 → FourDigits d
starts_in_2025 d h k = rw (start_year_2025 d h k) (omega arith, omega arith)

pub start_2025 : FourDigits (day_2026 50)
start_2025 =
    starts_in_2025 (day_2026 50) (omega (arith, september_2025)) (omega (arith, september_2026))

pub start_today : FourDigits (day_2026 40)
start_today =
    starts_in_2025 (day_2026 40) (omega (arith, september_2025)) (omega (arith, september_2026))

get_submission_blockers_iff_example :
    (get_submission_blockers candidate (day_2026 40) ≡ []) ↔ Complete candidate (day_2026 40)
get_submission_blockers_iff_example =
    get_submission_blockers_iff candidate (day_2026 40) start_2025 start_today

parse_stage_snapshot-json_example :
    parse_stage_snapshot env.is_datetime (some (snapshot_json the_snapshot)) (some 1)
    ≡ some the_snapshot
parse_stage_snapshot-json_example =
    parse_stage_snapshot-json env.is_datetime the_snapshot
      (record { school_year = year_2025_accepted; dates = tt; decided_at = refl })
