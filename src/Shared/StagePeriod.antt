-- ===== src/Shared/StagePeriod.antt =====
-- packages/shared/src/schemas/stage-period.schema.ts: the periods of a stage and its semester.
pub mod Validity
pub mod Semesters
use campus_internship.Prelude.{
  ℕ, zero, suc, ◌+◌, ◌==◌, Bool, true, false, ◌&&◌, ◌||◌, Option, none, some, List, [], ◌∷◌, ◌++◌,
  if◌then◌else◌, ltb, leb,
}
use campus_internship.Shared.Enums.{Semester, s1, s2}
use campus_internship.Shared.Calendar.{Date}
use campus_internship.Shared.SchoolYear.{
  SchoolYear, get_current_school_year, get_school_year_start, get_school_year_end,
  get_semester_boundary,
}

-- `StagePeriodInput`, its dates coerced
pub record Period : Type 0 where
  pub start_date : Date
  pub end_date : Date

-- Comparisons with a date that may be invalid: those are false.
abbrev pub before : Date → Option Date → Bool
before d none = false
before d (some e) = ltb d e

abbrev pub after : Date → Option Date → Bool
after d none = false
after d (some e) = ltb e d

abbrev pub same : Date → Option Date → Bool
same d none = false
same d (some e) = d == e

-- `overlaps`
unfoldable pub overlaps : Period → Period → Bool
overlaps a b = ltb a.start_date b.end_date && ltb b.start_date a.end_date

-- An issue of the schema, with its path.
pub data Issue : Type 0 where
  at_least_one : Issue
  end_before_start outside_school_year ends_at_bound overlapping : ℕ → Issue

-- the refinement of `stagePeriodInputSchema`, for each element
unfoldable pub element_issues : ℕ → List Period → List Issue
element_issues i [] = []
element_issues i (p ∷ ps) =
    let rest = element_issues (i + 1) ps in
    if leb p.start_date p.end_date then rest else end_before_start i ∷ rest

-- `periods.forEach`
unfoldable pub year_issues : Option Date → Option Date → ℕ → List Period → List Issue
year_issues year_start year_end i [] = []
year_issues year_start year_end i (p ∷ ps) =
    (if before p.start_date year_start || after p.end_date year_end
      then outside_school_year i ∷ []
      else [])
    ++ ((if same p.end_date year_end then ends_at_bound i ∷ [] else [])
        ++ year_issues year_start year_end (i + 1) ps)

-- the inner loop over j, and the outer one over i
unfoldable pub overlaps_with : Period → ℕ → List Period → List Issue
overlaps_with p j [] = []
overlaps_with p j (q ∷ qs) =
    let rest = overlaps_with p (j + 1) qs in if overlaps p q then overlapping j ∷ rest else rest

unfoldable pub overlap_issues : ℕ → List Period → List Issue
overlap_issues i [] = []
overlap_issues i (p ∷ ps) = overlaps_with p (i + 1) ps ++ overlap_issues (i + 1) ps

-- `stagePeriodsSchema`: the issues found, none for an accepted list.
unfoldable pub stage_periods_issues : List Period → List Issue
stage_periods_issues [] = at_least_one ∷ []
stage_periods_issues (p ∷ ps) =
    let school_year = get_current_school_year p.start_date in
    element_issues 0 (p ∷ ps)
    ++ (year_issues (get_school_year_start school_year) (get_school_year_end school_year) 0 (p ∷ ps)
        ++ overlap_issues 0 (p ∷ ps))

-- the loop of `deriveSemester`
unfoldable pub semester_flags : Option Date → Bool → Bool → List Period → Bool × Bool
semester_flags boundary has_s1 has_s2 [] = (has_s1, has_s2)
semester_flags boundary has_s1 has_s2 (p ∷ ps) =
    semester_flags boundary (if before p.start_date boundary then true else has_s1)
      (if after p.end_date boundary then true else has_s2) ps

abbrev semester_of_flags : Bool × Bool → Semester
semester_of_flags (has_s1, has_s2) = if has_s1 && has_s2 then s1 else if has_s2 then s2 else s1

-- `deriveSemester`; `none` is the `TypeError` of `periods[0]!` on an empty list
unfoldable pub derive_semester : List Period → Option Semester
unfolding semester_flags
derive_semester [] = none
derive_semester (p ∷ ps) =
    let boundary = get_semester_boundary (get_current_school_year p.start_date) in
    some (semester_of_flags (semester_flags boundary false false (p ∷ ps)))
