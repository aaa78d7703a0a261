-- ===== src/Shared/Submission.antt =====
-- packages/shared/src/schemas/stage-submission.schema.ts: what keeps a draft from being submitted.
pub mod Gate
use campus_internship.Prelude.{
  String, Bool, true, false, not, Option, none, some, List, [], ◌∷◌, ◌++◌, if◌then◌else◌, Text,
  trim, text_lt,
}
use campus_internship.Shared.Enums.{ProfileStatus, valid, profile_status_eq}
use campus_internship.Shared.Calendar.{Date}
use campus_internship.Shared.SchoolYear.{get_current_school_year}
use campus_internship.Shared.StagePeriod.{Period, Issue, stage_periods_issues}

-- `SubmissionCandidate`
pub record Candidate : Type 0 where
  pub profile_status : ProfileStatus
  pub has_organism : Bool
  pub has_tutor : Bool
  pub service : Option Text
  pub project_type : Option Text
  pub motivation : Option Text
  pub periods : List Period

abbrev pub is_empty {ℓ} : {A : Type ℓ} → List A → Bool
is_empty [] = true
is_empty (x ∷ xs) = false

-- `isBlank`
unfoldable pub is_blank : Option Text → Bool
is_blank none = true
is_blank (some value) = is_empty (trim value)

-- `isBeforeCurrentSchoolYear`
unfoldable pub is_before_current_school_year : Date → Date → Bool
is_before_current_school_year period_start today =
    text_lt (get_current_school_year period_start) (get_current_school_year today)

abbrev pub profile_not_valid : String
profile_not_valid =
    "Votre profil de stage doit d'abord être validé par l'administration pour soumettre une demande."

abbrev pub previous_school_year : String
previous_school_year =
    "Les demandes de l'année scolaire précédente ne peuvent plus être soumises : l'année en cours a commencé."

-- the blocker of the periods: `safeParse` fails, or they lie in a past school year
unfoldable pub period_blockers : List Period → Date → List String
period_blockers [] today = "Ajoutez au moins une période valide." ∷ []
period_blockers (p ∷ ps) today =
    if is_empty (stage_periods_issues (p ∷ ps))
    then (if is_before_current_school_year p.start_date today
        then previous_school_year ∷ []
        else [])
    else "Ajoutez au moins une période valide." ∷ []

abbrev push_if : Bool → String → List String
push_if b s = if b then s ∷ [] else []

-- `getSubmissionBlockers`
unfoldable pub get_submission_blockers : Candidate → Date → List String
get_submission_blockers c today =
    push_if (not (profile_status_eq c.profile_status valid)) profile_not_valid
    ++ (push_if (not c.has_organism) "Choisissez un organisme d'accueil."
        ++ (push_if (not c.has_tutor) "Choisissez un tuteur professionnel."
            ++ (push_if (is_blank c.service) "Renseignez le service."
                ++ (push_if (is_blank c.project_type) "Renseignez le type de handicap concerné."
                    ++ (push_if (is_blank c.motivation) "Renseignez votre motivation."
                        ++ period_blockers c.periods today)))))
