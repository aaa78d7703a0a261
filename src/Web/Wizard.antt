-- ===== src/Web/Wizard.antt =====
-- features/stages/edit/wizard/StageWizard.tsx: the state of the wizard and what its handlers do.
pub mod Steps
pub mod Gate
use campus_internship.Prelude.{
  ℕ, zero, suc, ◌+◌, ◌-◌, ◌==◌, String, Bool, true, false, not, ◌&&◌, Option, none, some, List, [],
  ◌∷◌, map, if◌then◌else◌, Text, trim,
}
use campus_internship.Prelude.Trim.{no_units}
use campus_internship.Shared.Enums.{ProfileStatus}
use campus_internship.Shared.Calendar.{Date}
use campus_internship.Shared.StagePeriod.{Period, Issue, stage_periods_issues}
use campus_internship.Shared.Submission.{Candidate, get_submission_blockers}
use campus_internship.Api.Schema.{Uuid, OrganismInput, TutorInput}
use campus_internship.Api.Stages.Resolve.{UpdateChoice}

-- `RawPeriod`
pub record RawPeriod : Type 0 where
  pub id : Text
  pub start_date : Text
  pub end_date : Text

-- `CreationMode`
pub data CreationMode : Type 0 where
  creating_organism creating_tutor editing_organism editing_tutor : CreationMode

-- the states of the component that its handlers read
pub record Wizard : Type 0 where
  pub step : ℕ
  pub creating : Option CreationMode
  pub organism : Option (UpdateChoice OrganismInput)
  pub tutor : Option (UpdateChoice TutorInput)
  pub periods : List RawPeriod
  pub service : Text
  pub project_type : Text
  pub motivation : Text
  pub mandatory : Option Bool

-- `StageWizardValues`
pub record Values : Type 0 where
  pub organism : UpdateChoice OrganismInput
  pub tutor : UpdateChoice TutorInput
  pub periods : List Period
  pub mandatory : Bool
  pub service : Option Text
  pub project_type : Option Text
  pub motivation : Option Text

abbrev pub is_some {ℓ} : {A : Type ℓ} → Option A → Bool
is_some none = false
is_some (some a) = true

abbrev no_issues : List Issue → Bool
no_issues [] = true
no_issues (i ∷ is) = false

-- `value.trim() || undefined`
abbrev pub trimmed_or_absent : Text → Option Text
trimmed_or_absent value = if no_units (trim value) then none else some (trim value)

-- the setters of the steps' forms
abbrev pub set_organism_tutor :
    Option (UpdateChoice OrganismInput) → Option (UpdateChoice TutorInput) → Wizard → Wizard
set_organism_tutor o t s = record s { organism = o; tutor = t }

-- `parse` is `z.coerce.date()`, which refuses a text that is no date
module _ (parse : Text → Option Date) where
  abbrev coerce_period : RawPeriod → Option Period
  coerce_period p = elim (parse p.start_date) [
    | none ↦ none
    | some start ↦ elim (parse p.end_date) [
      | none ↦ none
      | some end ↦ some (record { start_date = start; end_date = end })
    ]
  ]

  unfoldable pub coerce_periods : List RawPeriod → Option (List Period)
  coerce_periods [] = some []
  coerce_periods (p ∷ ps) =
      let rest = coerce_periods ps in
      elim (coerce_period p) [
        | none ↦ none
        | some q ↦ elim rest [ none ↦ none | some qs ↦ some (q ∷ qs) ]
      ]

  abbrev if_valid : Option (List Period) → Option (List Period)
  if_valid none = none
  if_valid (some ps) = if no_issues (stage_periods_issues ps) then some ps else none

  -- `validatePeriods`: the data of `safeParse` where it succeeds
  unfoldable pub validate_periods : List RawPeriod → Option (List Period)
  validate_periods raw = if_valid (coerce_periods raw)

  -- the array of `stepValid`
  unfoldable pub step_valid : ℕ → Wizard → Bool
  step_valid zero s = is_some s.organism && is_some s.tutor
  step_valid (suc zero) s = is_some (validate_periods s.periods)
  step_valid (suc (suc zero)) s = is_some s.mandatory
  step_valid (suc (suc (suc n))) s = true

  -- the handler of "Suivant", which is there before the last step and enabled on a valid one
  unfoldable pub handle_next : Wizard → Wizard
  handle_next s = record s { step = s.step + 1 }

  -- `handleBack`
  unfoldable pub handle_back : Wizard → Wizard
  handle_back s =
      if s.step == 0 then record s { creating = none } else record s { step = s.step - 1 }

  abbrev saved :
      Wizard
      → Option (List Period)
      → Option (UpdateChoice OrganismInput)
      → Option (UpdateChoice TutorInput)
      → Option Bool
      → Option Values
  saved s (some periods) (some organism) (some tutor) (some mandatory) = some (record {
    organism = organism;
    tutor = tutor;
    periods = periods;
    mandatory = mandatory;
    service = trimmed_or_absent s.service;
    project_type = trimmed_or_absent s.project_type;
    motivation = trimmed_or_absent s.motivation;
  })
  saved s _ _ _ _ = none

  -- `save`: what `onSave` is called with, or nothing where it returns early
  unfoldable pub save : Wizard → Option Values
  save s = saved s (validate_periods s.periods) s.organism s.tutor s.mandatory

  abbrev or_empty : Option (List Period) → List Period
  or_empty none = []
  or_empty (some ps) = ps

  -- the draft that `useSubmissionGate` is called with, and the status of the loaded profile
  abbrev pub gate_candidate : Wizard → ProfileStatus → Candidate
  gate_candidate s status = record {
    profile_status = status;
    has_organism = is_some s.organism;
    has_tutor = is_some s.tutor;
    service = some s.service;
    project_type = some s.project_type;
    motivation = some s.motivation;
    periods = or_empty (validate_periods s.periods);
  }

  abbrev no_blockers : List String → Bool
  no_blockers [] = true
  no_blockers (b ∷ bs) = false

  -- `useSubmissionGate`: `canSubmit`
  unfoldable pub can_submit : Wizard → Option ProfileStatus → Date → Bool
  can_submit s none today = false
  can_submit s (some status) today =
      no_blockers (get_submission_blockers (gate_candidate s status) today)
