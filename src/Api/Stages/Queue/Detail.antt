-- ===== src/Api/Stages/Queue/Detail.antt =====
-- `getById` and `toPreviousMandatoryStage` of modules/stages/admin/admin-stage-requests.service.ts.
use campus_internship.Prelude.{
  ℕ, ◌≡◌, ◌==◌, refl, Bool, true, false, ◌&&◌, Option, none, some, List, [], ◌∷◌, ◌++◌, map, leb,
  Text,
}
use campus_internship.Shared.Enums.{Semester, Promotion, pending, validated, status_eq}
use campus_internship.Shared.SchoolYear.{SchoolYear}
use campus_internship.Api.Http.{ok, not_found, internal, js_error}
use campus_internship.Api.Schema.{
  Uuid, User, StudentProfile, OrganismInput, TutorInput, Stage, StagePeriod, Db,
}
use campus_internship.Api.World.{
  World, Env, M, ◌>>=◌, ◌>>◌, pure, query, log, or_throw, require, unreadable_snapshot,
}
use campus_internship.Api.Prisma.{Client}
use campus_internship.Api.Snapshot.{Snapshot, FrozenPeriod, ReferentResponse, parse_stage_snapshot}
use campus_internship.Api.Stages.Responses.{to_period_response}
use campus_internship.Api.Stages.Read.{organism_of, tutor_of, referent_response_of}
use campus_internship.Api.Stages.Queue.{truthy_text, earliest_first}

-- `AdminPreviousMandatoryStage`
pub record PreviousStage : Type 0 where
  pub school_year : SchoolYear
  pub semester : Semester
  pub promotion : Promotion
  pub organism_name : Text
  pub structure_type : Text
  pub service : Text

-- `AdminStageRequestDetailResponse`
pub record RequestDetail : Type 0 where
  pub id : Uuid
  pub version : ℕ
  pub school_year : SchoolYear
  pub semester : Semester
  pub mandatory : Bool
  pub service : Text
  pub project_type : Text
  pub motivation : Text
  pub submitted_at : Text
  pub student_id : Uuid
  pub first_name : Text
  pub last_name : Text
  pub email : Text
  pub promotion : Promotion
  pub organism : OrganismInput
  pub tutor : TutorInput
  pub periods : List FrozenPeriod
  pub referent : Option ReferentResponse
  pub previous_mandatory_stages : List PreviousStage

-- what a readable snapshot gives; one without a service is corrupt
abbrev pub previous_of : Option Snapshot → Option PreviousStage
previous_of none = none
previous_of (some snapshot) = elim snapshot.service [
  | none ↦ none
  | some service ↦ some (record {
    school_year = snapshot.school_year;
    semester = snapshot.semester;
    promotion = snapshot.promotion;
    organism_name = snapshot.organism.input.name;
    structure_type = snapshot.organism.input.structure_type;
    service = service;
  })
]

-- `{ decidedAt: "desc" }`: not after; the database puts rows without a date first
abbrev pub latest_decision_first : Stage → Stage → Bool
latest_decision_first s t = elim s.decided_at [
  | none ↦ true
  | some x ↦ elim t.decided_at [ none ↦ false | some y ↦ leb y x ]
]

abbrev pub is_previous : Uuid → Stage → Bool
is_previous student_id s =
    (s.student_id == student_id) && s.mandatory && status_eq s.status validated

abbrev pub readable : Env → Stage → Option PreviousStage
readable env s = previous_of (parse_stage_snapshot env.is_datetime s.snapshot s.snapshot_version)

-- the `catch` logs and skips
abbrev pub keep_or_log : Uuid → Option PreviousStage → M (Option PreviousStage)
keep_or_log id (some previous) = pure (some previous)
keep_or_log id none = log (unreadable_snapshot id) >> pure none

abbrev pub with_previous : Option PreviousStage → List PreviousStage → List PreviousStage
with_previous none rest = rest
with_previous (some p) rest = p ∷ rest

module _ (c : Client) (env : Env) where
  -- `toPreviousMandatoryStage`
  unfoldable pub to_previous_mandatory_stage : Stage → M (Option PreviousStage)
  to_previous_mandatory_stage s = keep_or_log s.id (readable env s)

  -- `flatMap`
  unfoldable pub to_previous_stages : List Stage → M (List PreviousStage)
  to_previous_stages [] = pure []
  to_previous_stages (s ∷ ss) = do
    previous ← to_previous_mandatory_stage s
    rest ← to_previous_stages ss
    pure (with_previous previous rest)

  -- `getById`, whose reads are one snapshot
  unfoldable pub get_request : Uuid → M RequestDetail
  get_request id = do
    let absent = not_found "Demande de stage introuvable"
    let incomplete =
        internal
          "PENDING stage has no submittedAt, organism, tutor, promotion, service, projectType, or motivation"
    db ← c.transaction Db (query (λ db. db))
    stage ← or_throw (c.find_first Stage (λ s. s.id == id) db.stages) absent
    require (status_eq stage.status pending) absent
    student ←
        or_throw (c.find_first StudentProfile (λ p. p.id == stage.student_id) db.profiles)
          (js_error "student is null")
    user ←
        or_throw (c.find_first User (λ u. u.id == student.user_id) db.users)
          (js_error "user is null")
    submitted_at ← or_throw stage.submitted_at incomplete
    organism ← or_throw (organism_of c env stage db) incomplete
    tutor ← or_throw (tutor_of c env stage db) incomplete
    promotion ← or_throw student.promotion incomplete
    service ← or_throw (truthy_text stage.service) incomplete
    project_type ← or_throw (truthy_text stage.project_type) incomplete
    motivation ← or_throw (truthy_text stage.motivation) incomplete
    previous ← to_previous_stages (
        c.order_by Stage latest_decision_first
          (c.find_many Stage (is_previous stage.student_id) db.stages))
    pure (record {
      id = stage.id;
      version = stage.version;
      school_year = stage.school_year;
      semester = stage.semester;
      mandatory = stage.mandatory;
      service = service;
      project_type = project_type;
      motivation = motivation;
      submitted_at = env.to_iso_string submitted_at;
      student_id = student.id;
      first_name = user.first_name;
      last_name = user.last_name;
      email = user.email;
      promotion = promotion;
      organism = organism.input;
      tutor = tutor.input;
      periods = map (to_period_response env.to_iso_string) (
          c.order_by StagePeriod earliest_first
            (c.find_many StagePeriod (λ p. p.stage_id == stage.id) db.periods));
      referent = referent_response_of c env stage db;
      previous_mandatory_stages = previous;
    })

-- the stages whose snapshot can be read
abbrev pub all_readable : Env → List Stage → List PreviousStage
all_readable env [] = []
all_readable env (s ∷ ss) = with_previous (readable env s) (all_readable env ss)

previous_then :
    (o : Option PreviousStage) (id : Uuid) (m : M (List PreviousStage)) (xs : List PreviousStage)
    (w : World)
    → ((v : World) → (m v).0 ≡ ok xs)
    → ((keep_or_log id o >>= λ previous. (m >>= λ rest. pure (with_previous previous rest))) w).0
      ≡ ok (with_previous o xs)
unfolding ◌>>=◌
previous_then none id m xs w h =
    rw (h (record w { logs = w.logs ++ unreadable_snapshot id ∷ [] })) refl
previous_then (some p) id m xs w h = rw (h w) refl

-- A corrupt snapshot never fails the request that it is shown beside: the previous stages are those whose
-- snapshot can be read, in their order, and the others are left out.
pub to_previous_stages_lem :
    (c : Client) (env : Env) (ss : List Stage) (w : World)
    → (to_previous_stages c env ss w).0 ≡ ok (all_readable env ss)
unfolding to_previous_stages to_previous_mandatory_stage ◌>>=◌
to_previous_stages_lem c env [] w = refl
to_previous_stages_lem c env (s ∷ ss) w =
    previous_then (readable env s) s.id (to_previous_stages c env ss) (all_readable env ss) w
      (to_previous_stages_lem c env ss)
