-- ===== src/Api/Stages/Submit.antt =====
-- `submit`: from draft to pending, and the notification of the admins.
pub mod Laws
use mathlib.Core.Option
use campus_internship.Prelude.{
  ℕ, ◌+◌, ◌==◌, String, Bool, true, false, not, ◌&&◌, Option, none, some, List, [], ◌∷◌, ◌++◌, map,
  any, if◌then◌else◌, Text, text,
}
use campus_internship.Shared.Enums.{
  Role, admin, role_eq, Semester, s1, s2, draft, pending, status_eq,
}
use campus_internship.Shared.Submission.{Candidate, get_submission_blockers}
use campus_internship.Api.Http.{conflict, bad_request, js_error}
use campus_internship.Api.Schema.{Uuid, HostOrganism, Stage, StudentProfile, User, Db}
use campus_internship.Api.World.{
  Env, Email, M, World, ◌>>=◌, ◌>>◌, pure, throw, query, write, require, or_throw, log,
  no_admin_to_notify, notification_failed,
}
use campus_internship.Api.Prisma.{Client}
use campus_internship.Api.Mailer.{send_safely}
use campus_internship.Api.Stages.Responses.{DetailResponse}
use campus_internship.Api.Stages.Read.{
  stage_not_found, find_owned, organism_of, tutor_of, periods_of, get_by_id,
}
use campus_internship.Api.Stages.Create.{to_period}
use campus_internship.Api.Stages.Update.{is_draft_at}

abbrev is_some {ℓ} : {A : Type ℓ} → Option A → Bool
is_some none = false
is_some (some a) = true

abbrev pub is_empty {ℓ} : {A : Type ℓ} → List A → Bool
is_empty [] = true
is_empty (x ∷ xs) = false

-- the data of the conditional write
abbrev pub submitted : Env → Stage → Stage
submitted env s = record s {
  status = pending;
  submitted_at = some env.now;
  version = s.version + 1;
}

abbrev semester_text : Semester → Text
semester_text s1 = text "S1"
semester_text s2 = text "S2"

-- the text of the notification
pub submission_text : Stage → Option HostOrganism → User → Text
submission_text s organism student =
    student.first_name
    ++ (text " "
        ++ (student.last_name
            ++ (text " a soumis une demande de stage auprès de "
                ++ (Option.get_or (Option.map (λ (o : HostOrganism). o.name) organism)
                      (text "un organisme")
                    ++ (text " ("
                        ++ (s.school_year
                            ++ (text ", "
                                ++ (semester_text s.semester
                                    ++ (text ")."
                                        ++ (10
                                            ∷ 10
                                            ∷ text
                                                "Connectez-vous à l'application pour la valider ou la refuser."))))))))))

module _ (c : Client) (env : Env) where
  abbrev pub profile_of : Stage → Db → Option StudentProfile
  profile_of s db = c.find_first StudentProfile (λ p. p.id == s.student_id) db.profiles

  abbrev user_of : StudentProfile → Db → Option User
  user_of p db = c.find_first User (λ u. u.id == p.user_id) db.users

  -- what the gate is asked
  abbrev pub candidate_of : Stage → StudentProfile → Db → Candidate
  candidate_of s profile db = record {
    profile_status = profile.profile_status;
    has_organism = is_some (organism_of c env s db);
    has_tutor = is_some (tutor_of c env s db);
    service = s.service;
    project_type = s.project_type;
    motivation = s.motivation;
    periods = map to_period (periods_of c env s.id db);
  }

  -- the part of `submit` that reads: the stage, its student and the gate
  unfoldable pub submit_read : Uuid → Uuid → M Stage
  submit_read user_id stage_id = do
    found ← query (find_owned c env user_id stage_id)
    stage ← or_throw found stage_not_found
    db ← query (λ db. db)
    require (status_eq stage.status draft) (conflict none "Seul un brouillon peut être soumis")
    profile ← or_throw (profile_of stage db) (js_error "student is null")
    let blockers = get_submission_blockers (candidate_of stage profile db) env.now
    require (is_empty blockers) (bad_request blockers)
    pure stage

  -- the conditional write, on the status and the version that were read
  unfoldable pub submit_write : Stage → M (Unit {0})
  submit_write stage = do
    count ← write (λ db.
        let (n, rows) =
          c.update_many Stage (is_draft_at stage.id stage.version) (submitted env) db.stages in
        (n, record db { stages = rows }))
    require (not (count == 0))
        (conflict none "Cette demande a été modifiée entre-temps. Rechargez la page et réessayez.")

  -- the loop over the admins
  unfoldable pub notify_each : Text → List User → M (Unit {0})
  notify_each body [] = pure tt
  notify_each body (a ∷ rest) = do
    send_safely env (record {
      to = a.email;
      cc = [];
      subject = "Nouvelle demande de stage à traiter";
      body = body;
    })
    notify_each body rest

  -- the name in the notification is that of the student
  unfoldable pub notify_all : (User → Text) → List User → Option User → M (Unit {0})
  notify_all body admins none = log notification_failed
  notify_all body admins (some student) = notify_each (body student) admins

  abbrev student_user_of : Stage → Db → Option User
  student_user_of s db = elim (profile_of s db) [ none ↦ none | some p ↦ user_of p db ]

  abbrev pub is_admin : User → Bool
  is_admin u = any (λ r. role_eq r admin) u.roles

  -- `notifyAdminsOfSubmission`; a student without a user is caught by its `try`
  unfoldable pub notify_admins_of_submission : Stage → M (Unit {0})
  notify_admins_of_submission stage = do
    db ← query (λ db. db)
    let admins = c.find_many User is_admin db.users
    if is_empty admins
        then log no_admin_to_notify
        else notify_all (submission_text stage (organism_of c env stage db)) admins
            (student_user_of stage db)

  -- `submit`
  unfoldable pub submit : Uuid → Uuid → M DetailResponse
  submit user_id stage_id = do
    stage ← submit_read user_id stage_id
    submit_write stage
    notify_admins_of_submission stage
    get_by_id c env user_id stage_id
