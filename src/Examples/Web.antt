-- ===== src/Examples/Web.antt =====
-- The theorems on the web application, at a wizard that is filled in and at a request that is retried.
use campus_internship.Prelude.{
  ◌≡◌, ◌↔◌, ◌≤◌, length, arith, refl, not, true, false, Option, some, none, [], ◌∷◌, Text, text,
  trim, trim_start, is_space,
}
use campus_internship.Shared.Enums.{valid}
use campus_internship.Shared.Calendar.{Date, utc_january}
use campus_internship.Shared.StagePeriod.{Period, stage_periods_issues}
use campus_internship.Shared.StagePeriod.Semesters.{january_first_gets_s1}
use campus_internship.Shared.Submission.{get_submission_blockers, is_empty}
use campus_internship.Shared.Forms.{reason_schema, password_schema}
use campus_internship.Shared.Forms.Bounds.{utf8, password_schema-length}
use campus_internship.Api.Stages.Resolve.{choose, existing}
use campus_internship.Web.Wizard.{
  Wizard, Values, is_some, handle_next, step_valid, coerce_periods, save, can_submit,
  validate_periods,
}
use campus_internship.Web.Wizard.Steps.{
  Reachable, next, opened, after, EarlierValid, Reachable-EarlierValid,
}
use campus_internship.Web.Wizard.Gate.{saved_candidate, save-Reachable, can_submit-saved}
use campus_internship.Web.Reasons.{
  build_refusal_reason, build_reject_reason, is_refusal_reason_complete, refuser_disabled,
  reason_schema-build_reason,
}
use campus_internship.Api.Http.{row_frozen}
use campus_internship.Api.Json.{Json}
use campus_internship.Web.Conflict.{
  conflict_body, read_stage_conflict, read_stage_conflict-conflict_body,
}
use campus_internship.Web.ApiClient.{Server, fetch_with_auth}
use campus_internship.Web.ApiClient.Retry.{Ends, fetch_with_auth-Ends}
use campus_internship.Examples.Fixtures.{day_2026}

abbrev parse : Text → Option Date
parse [] = none
parse (d ∷ s) = some d

-- a draft that was reopened, at the first step
abbrev reopened : Wizard
reopened = record {
  step = 0;
  creating = none;
  organism = some (choose (existing 20));
  tutor = some (choose (existing 30));
  periods =
      record { id = text "p"; start_date = utc_january 2026 ∷ []; end_date = utc_january 2026 ∷ [] }
      ∷ [];
  service = text "APA";
  project_type = text "Adulte";
  motivation = text " ";
  mandatory = some true;
}

abbrev january_first : Period
january_first = record { start_date = utc_january 2026; end_date = utc_january 2026 }

validated : validate_periods parse reopened.periods ≡ some (january_first ∷ [])
unfolding validate_periods coerce_periods
validated = rw (january_first_gets_s1 2025 january_first (omega arith) refl refl).0

abbrev at_recap : Wizard
at_recap = record reopened { step = 3 }

at_recap-Reachable : Reachable parse at_recap
unfolding handle_next step_valid
at_recap-Reachable =
    after
      (after (after (opened {s = reopened} refl) (next (omega arith) refl))
        (next (omega arith) (rw validated)))
      (next (omega arith) refl)

Reachable-EarlierValid_example : EarlierValid parse at_recap
Reachable-EarlierValid_example = Reachable-EarlierValid parse at_recap at_recap-Reachable

save-Reachable_example :
    (v : Values) × ((save parse at_recap ≡ some v) × (stage_periods_issues v.periods ≡ []))
save-Reachable_example = save-Reachable parse at_recap at_recap-Reachable refl

abbrev values : Values
values = record {
  organism = choose (existing 20);
  tutor = choose (existing 30);
  periods = january_first ∷ [];
  mandatory = true;
  service = some (text "APA");
  project_type = some (text "Adulte");
  motivation = none;
}

saved_at_recap : save parse at_recap ≡ some values
unfolding save trim trim_start is_space
saved_at_recap = rw validated

can_submit-saved_example :
    can_submit parse at_recap (some valid) (day_2026 40)
    ≡ is_empty (get_submission_blockers (saved_candidate values valid) (day_2026 40))
can_submit-saved_example = can_submit-saved parse at_recap values valid (day_2026 40) saved_at_recap

reason_schema-build_reason_example :
    (is_refusal_reason_complete (text "A" ∷ []) (text " ")
      ≡ is_some (reason_schema (build_refusal_reason (text "A" ∷ []) (text " "))))
    × (not (refuser_disabled (text "A" ∷ []) (text " ") false)
        ≡ is_some (reason_schema (build_reject_reason (text "A" ∷ []) (text " "))))
reason_schema-build_reason_example = reason_schema-build_reason (text "A" ∷ []) (text " ")

-- the session has expired, and is refreshed
abbrev expired_once : Server
expired_once [] c = some 401
expired_once (first ∷ rest) c = some 200

fetch_with_auth-Ends_example :
    Ends expired_once (text "/stages") [] (fetch_with_auth expired_once 2 (text "/stages") false [])
fetch_with_auth-Ends_example = fetch_with_auth-Ends expired_once (text "/stages") 0 []

abbrev password : Text
password = text "une phrase de passe longue"

password_schema-length_example :
    (password_schema password ≡ true) ↔ ((18 ≤ length password) × (length (utf8 password) ≤ 72))
password_schema-length_example = password_schema-length password

abbrev frozen_answer : Text → Option Json
frozen_answer body = some (conflict_body (some row_frozen) (text "Ligne partagée"))

read_stage_conflict-conflict_body_example :
    read_stage_conflict frozen_answer (some (record { status = 409; message = text "{}" }))
    ≡ some (row_frozen, text "Ligne partagée")
read_stage_conflict-conflict_body_example =
    read_stage_conflict-conflict_body frozen_answer (some row_frozen) (text "Ligne partagée")
      (text "{}") refl
