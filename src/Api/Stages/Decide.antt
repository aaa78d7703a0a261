-- ===== src/Api/Stages/Decide.antt =====
-- modules/stages/admin/admin-stage-requests.service.ts: `refuseStage` and `validateStage`.
pub mod Branches
pub mod Laws
pub mod Concurrent
use mathlib.Core.Option
use campus_internship.Prelude.{
  ℕ, ◌+◌, ◌==◌, String, Bool, true, false, not, ◌&&◌, Option, none, some, List, [], ◌∷◌, ◌++◌, map,
  leb, Text, text,
}
use campus_internship.Shared.Enums.{
  Semester, StageStatus, draft, pending, validated, refused, status_eq, Promotion,
}
use campus_internship.Shared.Calendar.{Date}
use campus_internship.Shared.SchoolYear.{SchoolYear}
use campus_internship.Api.Http.{
  Error, Result, ok, err, js_error, ConflictCode, not_pending, no_referent, version_conflict,
}
use campus_internship.Api.Schema.{
  Uuid, HostOrganism, Tutor, Stage, StagePeriod, StudentProfile, ReferentProfile, User, Db,
}
use campus_internship.Api.World.{
  Env, Email, M, World, ◌>>=◌, ◌>>◌, pure, throw, query, write, require, or_throw,
}
use campus_internship.Api.Prisma.{Client}
use campus_internship.Api.Mailer.{
  ActingAdmin, admin_title, admin_display_name, compose_student_email, Cc, several, normalize_cc,
  personal_cc, send_safely,
}
use campus_internship.Api.Snapshot.{
  Snapshot, snapshot_json, parse_stage_snapshot, current_stage_snapshot_version,
}
use campus_internship.Api.Stages.Responses.{
  stage_conflict, to_period_response, to_referent_response,
}
use campus_internship.Api.Stages.Read.{
  stage_not_found, organism_of, tutor_of, periods_of, assigned_referent,
}

-- the falsy values of a nullable text: `null` and ""
abbrev pub truthy : Option Text → Option Text
truthy none = none
truthy (some []) = none
truthy (some s) = some s

-- what `findPendingStageOrThrow` returns: the stage, with the fields that it checked
pub record PendingStage : Type 0 where
  pub stage : Stage
  pub submitted_at : Date
  pub organism : HostOrganism
  pub tutor : Tutor
  pub periods : List StagePeriod
  pub student : StudentProfile
  pub user : User
  pub promotion : Promotion
  pub service : Text
  pub project_type : Text
  pub motivation : Text

-- the admin who decides, with the id that the snapshot freezes
pub record DecidingAdmin : Type 0 where
  pub id : Uuid
  pub acting : ActingAdmin

-- `RefuseStageResponse` and `ValidateStageResponse`
pub record DecisionResponse : Type 0 where
  pub id : Uuid
  pub status : StageStatus
  pub decided_at : Text

-- the object that `buildDecisionSnapshot` parses
abbrev pub snapshot_candidate :
    Env → PendingStage → ReferentProfile → User → DecidingAdmin → Snapshot
snapshot_candidate env p r u admin = record {
  school_year = p.stage.school_year;
  semester = p.stage.semester;
  mandatory = p.stage.mandatory;
  service = some p.service;
  project_type = some p.project_type;
  motivation = some p.motivation;
  organism = record { id = p.organism.id; input = p.organism.input };
  tutor = record { id = p.tutor.id; input = p.tutor.input };
  periods = map (to_period_response env.to_iso_string) p.periods;
  referent = to_referent_response r u;
  promotion = p.promotion;
  decided_at = env.to_iso_string env.now;
  decided_by = record {
    id = admin.id;
    first_name = admin.acting.first_name;
    last_name = admin.acting.last_name;
    title = admin_title;
  };
}

-- `buildDecisionSnapshot`; `none` is the error of the schema
unfoldable pub build_decision_snapshot :
    Env → PendingStage → ReferentProfile → User → DecidingAdmin → Option Snapshot
build_decision_snapshot env p r u admin =
    parse_stage_snapshot env.is_datetime (some (snapshot_json (snapshot_candidate env p r u admin)))
      (some current_stage_snapshot_version)

-- the filter of the conditional write, and its data
abbrev pub is_pending_at : Uuid → ℕ → Stage → Bool
is_pending_at id version s = (s.id == id) && status_eq s.status pending && (s.version == version)

abbrev pub refused_with : Env → Snapshot → Text → Stage → Stage
refused_with env snapshot reason s = record s {
  status = refused;
  refusal_reason = some reason;
  snapshot = some (snapshot_json snapshot);
  snapshot_version = some current_stage_snapshot_version;
  decided_at = some env.now;
  version = s.version + 1;
}

abbrev pub validated_with : Env → Snapshot → Stage → Stage
validated_with env snapshot s = record s {
  status = validated;
  snapshot = some (snapshot_json snapshot);
  snapshot_version = some current_stage_snapshot_version;
  decided_at = some env.now;
  version = s.version + 1;
}

abbrev pub decision_conflict : Error
decision_conflict =
    stage_conflict version_conflict
      "Cette demande a été modifiée entre-temps. Rechargez la page et réessayez."

-- what a decision has read before it writes
pub record Prepared : Type 0 where
  pub request : PendingStage
  pub referent : ReferentProfile
  pub referent_user : User
  pub snapshot : Snapshot

module _ (c : Client) (env : Env) where
  abbrev incomplete : Error
  incomplete =
      js_error
        "PENDING stage has no submittedAt, organism, tutor, promotion, service, projectType, or motivation"

  -- `findPendingStageOrThrow`
  unfoldable pub find_pending_stage_or_throw : Uuid → String → M PendingStage
  find_pending_stage_or_throw id not_pending_message = do
    db ← query (λ db. db)
    stage ← or_throw (c.find_first Stage (λ s. s.id == id) db.stages) stage_not_found
    require (status_eq stage.status pending) (stage_conflict not_pending not_pending_message)
    student ←
        or_throw (c.find_first StudentProfile (λ p. p.id == stage.student_id) db.profiles)
          incomplete
    user ← or_throw (c.find_first User (λ u. u.id == student.user_id) db.users) incomplete
    submitted_at ← or_throw stage.submitted_at incomplete
    organism ← or_throw (organism_of c env stage db) incomplete
    tutor ← or_throw (tutor_of c env stage db) incomplete
    promotion ← or_throw student.promotion incomplete
    service ← or_throw (truthy stage.service) incomplete
    project_type ← or_throw (truthy stage.project_type) incomplete
    motivation ← or_throw (truthy stage.motivation) incomplete
    pure (record {
      stage = stage;
      submitted_at = submitted_at;
      organism = organism;
      tutor = tutor;
      periods =
          c.order_by StagePeriod (λ p q. leb p.start_date q.start_date)
            (periods_of c env stage.id db);
      student = student;
      user = user;
      promotion = promotion;
      service = service;
      project_type = project_type;
      motivation = motivation;
    })

  -- `findAssignedReferentOrThrow`
  unfoldable pub find_assigned_referent_or_throw : Stage → String → M (ReferentProfile × User)
  find_assigned_referent_or_throw stage no_referent_message = do
    found ←
        query (
          assigned_referent c env stage.student_id stage.school_year stage.semester stage.mandatory)
    or_throw found (stage_conflict no_referent no_referent_message)

  -- the part of a decision that reads
  unfoldable pub prepare_decision : Uuid → String → String → DecidingAdmin → M Prepared
  prepare_decision id not_pending_message no_referent_message admin = do
    request ← find_pending_stage_or_throw id not_pending_message
    assignment ← find_assigned_referent_or_throw request.stage no_referent_message
    snapshot ←
        or_throw (build_decision_snapshot env request assignment.0 assignment.1 admin)
          (js_error "ZodError")
    pure (record {
      request = request;
      referent = assignment.0;
      referent_user = assignment.1;
      snapshot = snapshot;
    })

  abbrev pub prepare_refusal : Uuid → DecidingAdmin → M Prepared
  prepare_refusal id admin =
      prepare_decision id "Seule une demande soumise peut être refusée"
        "Un enseignant référent doit être assigné avant de refuser cette demande" admin

  abbrev pub prepare_validation : Uuid → DecidingAdmin → M Prepared
  prepare_validation id admin =
      prepare_decision id "Seule une demande soumise peut être validée"
        "Un enseignant référent doit être assigné avant de valider cette demande" admin

  -- the conditional write of a decision
  unfoldable pub decision_write : Uuid → ℕ → (Stage → Stage) → M (Unit {0})
  decision_write id version data_of = do
    count ← write (λ db.
        let (n, rows) = c.update_many Stage (is_pending_at id version) data_of db.stages in
        (n, record db { stages = rows }))
    require (not (count == 0)) decision_conflict

  refusal_text : Text → Text → Text → Text
  refusal_text organism_name admin_name reason =
      text "Votre demande de stage auprès de "
      ++ (organism_name
          ++ (text " a été examinée par "
              ++ (admin_name
                  ++ (text ", "
                      ++ (admin_title
                          ++ (text ", et n'a pas pu être validée, pour le motif suivant :"
                              ++ (10 ∷ 10 ∷ reason)))))))

  -- `notifyStudentOfRefusal`
  unfoldable pub notify_student_of_refusal :
      StudentProfile → User → Text → Text → ActingAdmin → M (Unit {0})
  unfolding refusal_text
  notify_student_of_refusal student user organism_name reason admin =
      let admin_name = admin_display_name env admin in
      send_safely env (record {
        to = user.email;
        cc = normalize_cc (personal_cc student.personal_email);
        subject = "Votre demande de stage a été refusée";
        body = compose_student_email user.first_name admin_name (
            refusal_text organism_name admin_name reason
            ∷ text
                "Vous pouvez corriger votre demande et la soumettre à nouveau depuis votre espace étudiant."
            ∷ []);
      })

  validation_text : Text → Text → Text
  validation_text organism_name admin_name =
      text "Votre demande de stage auprès de "
      ++ (organism_name
          ++ (text " a été examinée par "
              ++ (admin_name ++ (text ", " ++ (admin_title ++ text ", et a été validée.")))))

  -- `notifyStudentOfValidation`
  unfoldable pub notify_student_of_validation :
      StudentProfile → User → Text → User → ActingAdmin → M (Unit {0})
  unfolding validation_text
  notify_student_of_validation student user organism_name referent admin =
      let admin_name = admin_display_name env admin in
      send_safely env (record {
        to = user.email;
        cc =
            normalize_cc
              (several (normalize_cc (personal_cc student.personal_email) ++ referent.email ∷ []));
        subject = "Votre demande de stage a été validée";
        body = compose_student_email user.first_name admin_name (
            validation_text organism_name admin_name
            ∷ text "Vous pouvez consulter les détails de votre stage depuis votre espace étudiant."
            ∷ []);
      })

  -- `refuseStage`
  unfoldable pub refuse_stage : Uuid → ℕ → Text → DecidingAdmin → M DecisionResponse
  refuse_stage id version reason admin = do
    prepared ← prepare_refusal id admin
    let request = prepared.request
    decision_write request.stage.id version (refused_with env prepared.snapshot reason)
    notify_student_of_refusal request.student request.user request.organism.name reason admin.acting
    pure
        (record { id = request.stage.id; status = refused; decided_at = env.to_iso_string env.now })

  -- `validateStage`
  unfoldable pub validate_stage : Uuid → ℕ → DecidingAdmin → M DecisionResponse
  validate_stage id version admin = do
    prepared ← prepare_validation id admin
    let request = prepared.request
    decision_write request.stage.id version (validated_with env prepared.snapshot)
    notify_student_of_validation request.student request.user request.organism.name
        prepared.referent_user admin.acting
    pure (record {
      id = request.stage.id;
      status = validated;
      decided_at = env.to_iso_string env.now;
    })
