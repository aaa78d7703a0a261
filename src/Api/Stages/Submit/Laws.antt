-- ===== src/Api/Stages/Submit/Laws.antt =====
-- What `submit` does on each branch.
use campus_internship.Prelude.{◌≡◌, ◌≢◌, refl, Option, none, some, [], arith, Bool-cases, inl, inr}
use campus_internship.Shared.Enums.{draft, status_eq}
use campus_internship.Shared.Submission.{get_submission_blockers}
use campus_internship.Api.Http.{Error, js_error, err, bad_request, conflict}
use campus_internship.Api.Schema.{Uuid, Stage, StudentProfile}
use campus_internship.Api.World.{World, Env, ◌>>=◌}
use campus_internship.Api.Prisma.{Client, update_where}
use campus_internship.Api.Stages.Read.{stage_not_found, find_owned}
use campus_internship.Api.Stages.Update.{is_draft_at}
use campus_internship.Api.Stages.Submit.{
  candidate_of, submit_read, submitted, submit, profile_of, is_empty,
}

module _ (c : Client) (env : Env) where
  -- A draft of the caller that the gate refuses is answered with the blockers, and nothing changes.
  pub submit_blocked :
      (user_id stage_id : Uuid) (w : World) (s : Stage) (p : StudentProfile)
      → find_owned c env user_id stage_id w.db ≡ some s
      → s.status ≡ draft
      → profile_of c env s w.db ≡ some p
      → get_submission_blockers (candidate_of c env s p w.db) env.now ≢ []
      → submit c env user_id stage_id w
        ≡ (err (bad_request (get_submission_blockers (candidate_of c env s p w.db) env.now)), w)
  unfolding submit submit_read ◌>>=◌
  submit_blocked user_id stage_id w s p found st prof refused = ground arith

  -- A stage of the caller that is no draft is refused, and nothing changes.
  pub submit_not_draft :
      (user_id stage_id : Uuid) (w : World) (s : Stage)
      → find_owned c env user_id stage_id w.db ≡ some s
      → s.status ≢ draft
      → submit c env user_id stage_id w
        ≡ (err (conflict none "Seul un brouillon peut être soumis"), w)
  unfolding submit submit_read ◌>>=◌
  submit_not_draft user_id stage_id w s found st = ground arith

  -- a draft of the caller that the gate accepts
  pub record Submittable (user_id stage_id : Uuid) (w : World) : Type 0 where
    pub stage : Stage
    pub profile : StudentProfile
    pub owned : find_owned c env user_id stage_id w.db ≡ some stage
    pub is_draft : stage.status ≡ draft
    pub student : profile_of c env stage w.db ≡ some profile
    pub accepted : get_submission_blockers (candidate_of c env stage profile w.db) env.now ≡ []

  module _ (user_id stage_id : Uuid) (w : World) (no : ¬ Submittable user_id stage_id w) where
    -- from the profile that is found
    refused_profile :
        (s : Stage) (prof : Option StudentProfile)
        → find_owned c env user_id stage_id w.db ≡ some s
        → s.status ≡ draft
        → profile_of c env s w.db ≡ prof
        → (e : Error) × (submit c env user_id stage_id w ≡ (err e, w))
    unfolding submit submit_read ◌>>=◌
    refused_profile s none found st none_found = (js_error "student is null", ground arith)
    refused_profile s (some p) found st prof =
        elim (Bool-cases
          (is_empty (get_submission_blockers (candidate_of c env s p w.db) env.now))) [
            | inl y ↦ absurd (
                no (record {
                  stage = s;
                  profile = p;
                  owned = found;
                  is_draft = st;
                  student = prof;
                  accepted = ground arith;
                }))
            | inr n ↦ (
              bad_request (get_submission_blockers (candidate_of c env s p w.db) env.now),
              submit_blocked user_id stage_id w s p found st prof (λ h. ground arith),
            )
          ]

    refused_stage :
        (found : Option Stage)
        → find_owned c env user_id stage_id w.db ≡ found
        → (e : Error) × (submit c env user_id stage_id w ≡ (err e, w))
    unfolding submit submit_read ◌>>=◌
    refused_stage none found = (stage_not_found, ground arith)
    refused_stage (some s) found = elim (Bool-cases (status_eq s.status draft)) [
      | inl y ↦ refused_profile s (profile_of c env s w.db) found (ground arith) refl
      | inr n ↦ (
        conflict none "Seul un brouillon peut être soumis",
        submit_not_draft user_id stage_id w s found (λ h. ground arith),
      )
    ]

    -- Unless the stage is a draft of the caller whose student has a profile and which the gate accepts,
    -- `submit` answers by an error, and nothing changes: neither the database, nor the emails, nor the
    -- log.
    pub submit_refused : (e : Error) × (submit c env user_id stage_id w ≡ (err e, w))
    submit_refused = refused_stage (find_owned c env user_id stage_id w.db) refl

-- the database with the stage submitted
abbrev pub after_submit : Env → Stage → World → World
after_submit env s w = record w {
  db = record w.db {
    stages = update_where (is_draft_at s.id s.version) (submitted env) w.db.stages;
  };
}
