-- ===== src/Shared/StagePeriod/Validity.antt =====
-- The schema accepts exactly the lists of periods that the calendar rules allow.
use campus_internship.Prelude.{
  ℕ, ◌+◌, ◌<◌, ◌≤◌, ◌≡◌, ◌↔◌, ◌⊎◌, ap, some, List, [], ◌∷◌, ◌++◌, arith, All, ltb, Bool-cases, inl,
  inr,
}
use campus_internship.Shared.Calendar.{Date, utc_september, date_utc_year}
use campus_internship.Shared.SchoolYear.{start_year, date_utc_september}
use campus_internship.Shared.SchoolYear.Laws.{
  get_school_year_start-get_current_school_year, get_school_year_end-get_current_school_year,
  date_utc_year_late, before_later_year,
}
use campus_internship.Shared.StagePeriod.{
  Period, overlaps, element_issues, year_issues, overlaps_with, overlap_issues,
  stage_periods_issues,
}

-- One of the two periods ends before the other starts, or at the same instant: so two equal periods
-- of one instant are apart.
abbrev pub Apart : Period → Period → Type 0
Apart p q = (q.end_date ≤ p.start_date) ⊎ (p.end_date ≤ q.start_date)

abbrev pub Disjoint : List Period → Type 0
Disjoint [] = Unit
Disjoint (p ∷ ps) = All (Apart p) ps × Disjoint ps

-- a period within the school year that starts in the year `y`, its end strictly before the next
pub record Within (y : ℕ) (p : Period) : Type 0 where
  pub ordered : p.start_date ≤ p.end_date
  pub from_start : utc_september y ≤ p.start_date
  pub before_end : p.end_date < utc_september (y + 1)

-- The constraints of BR-04c on the periods of a stage, from the year 100 on.
abbrev pub ValidPeriods : List Period → Type 0
ValidPeriods [] = ⊥
ValidPeriods (p ∷ ps) =
    (100 ≤ start_year p.start_date)
    × (All (Within (start_year p.start_date)) (p ∷ ps) × Disjoint (p ∷ ps))

nil-append_iff : {A : Type 0} (xs ys : List A) → (xs ++ ys ≡ []) ↔ ((xs ≡ []) × (ys ≡ []))
nil-append_iff [] ys = ground arith
nil-append_iff (x ∷ xs) ys = ground arith

-- a period between two dates, the second one excluded
abbrev Between : Date → Date → Period → Type 0
Between lo hi p = (p.start_date ≤ p.end_date) × ((lo ≤ p.start_date) × (p.end_date < hi))

year_and_elements_iff :
    (lo hi : Date) (i j : ℕ) (ps : List Period)
    → ((element_issues i ps ≡ []) × (year_issues (some lo) (some hi) j ps ≡ []))
      ↔ All (Between lo hi) ps
unfolding element_issues year_issues
year_and_elements_iff lo hi i j [] = ground arith
year_and_elements_iff lo hi i j (p ∷ ps) =
    ground (arith, year_and_elements_iff lo hi (i + 1) (j + 1) ps)

overlaps_with_iff :
    (p : Period) (j : ℕ) (ps : List Period) → (overlaps_with p j ps ≡ []) ↔ All (Apart p) ps
unfolding overlaps_with overlaps
overlaps_with_iff p j [] = ground arith
overlaps_with_iff p j (q ∷ qs) = ground (arith, overlaps_with_iff p (j + 1) qs)

overlap_issues_iff : (i : ℕ) (ps : List Period) → (overlap_issues i ps ≡ []) ↔ Disjoint ps
unfolding overlap_issues
overlap_issues_iff i [] = ground arith
overlap_issues_iff i (p ∷ ps) = ground (
  arith,
  nil-append_iff (overlaps_with p (i + 1) ps) (overlap_issues (i + 1) ps),
  overlaps_with_iff p (i + 1) ps,
  overlap_issues_iff (i + 1) ps,
)

issues_iff :
    (lo hi : Date) (p : Period) (ps : List Period)
    → (element_issues 0 (p ∷ ps)
          ++ (year_issues (some lo) (some hi) 0 (p ∷ ps) ++ overlap_issues 0 (p ∷ ps))
        ≡ [])
      ↔ (All (Between lo hi) (p ∷ ps) × Disjoint (p ∷ ps))
issues_iff lo hi p ps = ground (
  arith,
  nil-append_iff (element_issues 0 (p ∷ ps))
      (year_issues (some lo) (some hi) 0 (p ∷ ps) ++ overlap_issues 0 (p ∷ ps)),
  nil-append_iff (year_issues (some lo) (some hi) 0 (p ∷ ps)) (overlap_issues 0 (p ∷ ps)),
  year_and_elements_iff lo hi 0 0 (p ∷ ps),
  overlap_issues_iff 0 (p ∷ ps),
)

Between-Within_iff :
    (y : ℕ) (lo hi : Date) (ps : List Period)
    → lo ≡ utc_september y
    → hi ≡ utc_september (y + 1)
    → All (Between lo hi) ps ↔ All (Within y) ps
Between-Within_iff y lo hi [] e f = ground arith
Between-Within_iff y lo hi (p ∷ ps) e f = ground (arith, Between-Within_iff y lo hi ps e f)

-- before the year 100 the start of the school year is taken for one of the twentieth century
too_early :
    (p : Period) (hi : Date)
    → start_year p.start_date < 100
    → ¬ Between (date_utc_september (start_year p.start_date)) hi p
unfolding date_utc_year
too_early p hi early b =
    let then_year : date_utc_year (start_year p.start_date) ≡ 1900 + start_year p.start_date =
      ground arith in
    let later = before_later_year p.start_date (1900 + start_year p.start_date) (omega arith) in
    let bound : utc_september (1900 + start_year p.start_date) ≤ p.start_date =
      rw (← then_year) b.1.0 in
    absurd (omega arith)

valid_iff :
    (p : Period) (ps : List Period)
    → (All
          (Between
            (date_utc_september (start_year p.start_date))
            (date_utc_september (start_year p.start_date + 1)))
          (p ∷ ps)
        × Disjoint (p ∷ ps))
      ↔ ValidPeriods (p ∷ ps)
valid_iff p ps = elim (Bool-cases (ltb (start_year p.start_date) 100)) [
  | inl early ↦
      ground (arith, too_early p (date_utc_september (start_year p.start_date + 1)) (ground arith))
  | inr late ↦
      let y : ℕ = start_year p.start_date in
      let lo_is : date_utc_september y ≡ utc_september y =
        ap utc_september (date_utc_year_late y (ground arith)) in
      let hi_is : date_utc_september (y + 1) ≡ utc_september (y + 1) =
        ap utc_september (date_utc_year_late (y + 1) (ground arith)) in
      ground (
        arith,
        Between-Within_iff y (date_utc_september y) (date_utc_september (y + 1)) (p ∷ ps) lo_is
            hi_is,
      )
]

-- The schema finds no issue exactly in a non-empty list of periods whose first one starts in a school
-- year of the year 100 or later, which all lie in that school year, ends included, each ordered, and
-- of which no two overlap: of any two, one ends before the other starts or at the same instant, which
-- two equal periods of one instant do.
pub stage_periods_issues_iff : (ps : List Period) → (stage_periods_issues ps ≡ []) ↔ ValidPeriods ps
unfolding stage_periods_issues
stage_periods_issues_iff [] = ground arith
stage_periods_issues_iff (p ∷ ps) =
    rw (get_school_year_start-get_current_school_year, get_school_year_end-get_current_school_year)
      (ground (
        arith,
        issues_iff (date_utc_september (start_year p.start_date))
            (date_utc_september (start_year p.start_date + 1)) p ps,
        valid_iff p ps,
      ))
