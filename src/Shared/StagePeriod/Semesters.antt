-- ===== src/Shared/StagePeriod/Semesters.antt =====
-- Which semester is derived from the periods.
use campus_internship.Prelude.{
  ℕ, ◌+◌, ◌<◌, ◌≤◌, ◌≡◌, ◌↔◌, ◌⊎◌, Bool, true, false, some, List, [], ◌∷◌, arith, All, Some,
  if◌then◌else◌,
}
use campus_internship.Shared.Enums.{s1, s2}
use campus_internship.Shared.Calendar.{Date, utc_january, utc_september}
use campus_internship.Shared.SchoolYear.{start_year}
use campus_internship.Shared.SchoolYear.Laws.{
  get_semester_boundary_late, january_in_school_year, start_year_unique, start_year_late,
  utc_september_mono,
}
use campus_internship.Shared.StagePeriod.{
  Period, semester_flags, semester_of_flags, derive_semester, before, after, stage_periods_issues,
}
use campus_internship.Shared.StagePeriod.Validity.{stage_periods_issues_iff}

-- January 1st of the school year of the first period
abbrev pub boundary_of : List Period → Date
boundary_of [] = 0
boundary_of (p ∷ ps) = utc_january (start_year p.start_date + 1)

module _ (b : Date) where
  flags_iff :
      (x y : Bool) (ps : List Period)
      → (semester_of_flags (semester_flags (some b) x y ps) ≡ s2) ↔ (
          (x ≡ false)
          × All (λ q. b ≤ q.start_date) ps
          × ((y ≡ true) ⊎ Some (λ q. b < q.end_date) ps))
  unfolding semester_flags
  flags_iff x y [] = ground arith
  flags_iff x y (p ∷ ps) = ground (
    arith,
    flags_iff (if before p.start_date (some b) then true else x)
        (if after p.end_date (some b) then true else y) ps,
  )

-- Where the first period starts in September of the year 100 or later, `S2` is derived exactly for
-- periods that all start in the second semester, January 1st included,
-- and of which some ends after the instant at which that semester begins.
pub derive_semester_iff :
    (p : Period) (ps : List Period)
    → utc_september 100 ≤ p.start_date
    → (derive_semester (p ∷ ps) ≡ some s2) ↔ (
        All (λ q. boundary_of (p ∷ ps) ≤ q.start_date) (p ∷ ps)
        × Some (λ q. boundary_of (p ∷ ps) < q.end_date) (p ∷ ps))
unfolding derive_semester
derive_semester_iff p ps h =
    rw (get_semester_boundary_late p.start_date (start_year_late p.start_date h))
      (ground (arith, flags_iff (boundary_of (p ∷ ps)) false false (p ∷ ps)))

-- From the year 101 on, a stage whose only period is January 1st lies in the second semester, and gets `S1`.
pub january_first_gets_s1 :
    (y : ℕ) (p : Period)
    → 100 ≤ y
    → p.start_date ≡ utc_january (y + 1)
    → p.end_date ≡ utc_january (y + 1)
    → (stage_periods_issues (p ∷ []) ≡ []) × (derive_semester (p ∷ []) ≡ some s1)
unfolding derive_semester
january_first_gets_s1 y p late e f =
    let (after_start, before_next) = january_in_school_year y in
    let y_is : start_year p.start_date ≡ y =
      start_year_unique p.start_date y (rw e (omega (arith, utc_september_mono 0 y)))
        (rw e (omega arith)) (rw e (omega arith)) in
    (
      (stage_periods_issues_iff (p ∷ [])).1 (
        rw y_is late,
        (
          (
            (record {
              ordered = omega arith;
              from_start = rw (y_is, e) (omega arith);
              before_end = rw (y_is, f) (omega arith);
            }),
            tt,
          ),
          (tt, tt),
        ),
      ),
      rw (get_semester_boundary_late p.start_date (rw y_is late))
          (ground (arith, flags_iff (boundary_of (p ∷ [])) false false (p ∷ []), y_is)),
    )
