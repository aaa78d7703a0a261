-- ===== src/Api/Stages/Create.antt =====
-- `createDraft` and `duplicate`: how a stage request comes to be.
use campus_internship.Prelude.{ℕ, ◌+◌, ◌==◌, Bool, Option, none, some, List, [], ◌∷◌, map, Text}
use campus_internship.Shared.Enums.{Semester, draft}
use campus_internship.Shared.Calendar.{Date}
use campus_internship.Shared.SchoolYear.{SchoolYear, get_current_school_year}
use campus_internship.Shared.StagePeriod.{Period, derive_semester}
use campus_internship.Api.Http.{Error, not_found, js_error}
use campus_internship.Api.Schema.{
  Uuid, OrganismInput, TutorInput, Stage, StagePeriod, StudentProfile, Db,
}
use campus_internship.Api.World.{
  Env, M, ◌>>=◌, ◌>>◌, pure, query, or_throw, lift, try_write, map_result,
}
use campus_internship.Api.Prisma.{Client}
use campus_internship.Api.Stages.Responses.{DraftResponse}
use campus_internship.Api.Stages.Read.{stage_not_found, find_owned, periods_of, draft_response_of}
use campus_internship.Api.Stages.Resolve.{Choice, Ids, resolve_organism, resolve_tutor}

-- `CreateStageDraftRequest`
pub record CreateRequest : Type 0 where
  pub organism : Choice OrganismInput
  pub tutor : Choice TutorInput
  pub periods : List Period
  pub service : Option Text
  pub project_type : Option Text
  pub motivation : Option Text
  pub mandatory : Bool

abbrev pub profile_not_found : Error
profile_not_found = not_found "Profil étudiant introuvable"

-- the `TypeError` of `periods[0]!` on an empty list
abbrev pub no_period : Error
no_period = js_error "periods[0] is undefined"

-- `getCurrentSchoolYear(periods[0]!.startDate)`
abbrev pub first_school_year : List Period → Option SchoolYear
first_school_year [] = none
first_school_year (p ∷ ps) = some (get_current_school_year p.start_date)

-- the rows of the periods of a stage
unfoldable pub period_rows : (ℕ → Uuid) → ℕ → Uuid → List Period → List StagePeriod
period_rows ids i stage_id [] = []
period_rows ids i stage_id (p ∷ ps) =
    record { id = ids i; stage_id = stage_id; start_date = p.start_date; end_date = p.end_date }
    ∷ period_rows ids (i + 1) stage_id ps

abbrev pub to_period : StagePeriod → Period
to_period p = record { start_date = p.start_date; end_date = p.end_date }

-- a stage as it is created: what is not given has its default
abbrev pub new_stage :
    Uuid
    → Date
    → Uuid
    → Option Uuid
    → Option Uuid
    → Option Uuid
    → SchoolYear
    → Semester
    → Bool
    → Option Text
    → Option Text
    → Option Text
    → Stage
new_stage id now student_id parent organism_id tutor_id school_year semester mandatory service
      project_type motivation =
    record {
      id = id;
      status = draft;
      school_year = school_year;
      semester = semester;
      mandatory = mandatory;
      service = service;
      project_type = project_type;
      motivation = motivation;
      refusal_reason = none;
      submitted_at = none;
      student_id = student_id;
      organism_id = organism_id;
      tutor_id = tutor_id;
      snapshot = none;
      snapshot_version = none;
      decided_at = none;
      parent_stage_id = parent;
      version = 0;
      created_at = now;
    }

module _ (c : Client) (env : Env) (ids : Ids) where
  abbrev pub find_profile : Uuid → Db → Option StudentProfile
  find_profile user_id db = c.find_first StudentProfile (λ p. p.user_id == user_id) db.profiles

  -- `stage.create` with its nested periods, in one statement
  unfoldable pub insert_stage : Stage → List Period → M (Unit {0})
  insert_stage s periods = try_write λ db.
      map_result
        (λ rows. record db {
          stages = rows;
          periods = c.create_many StagePeriod (period_rows ids.period 0 s.id periods) db.periods;
        })
        (c.create Stage s db.stages)

  -- the body of the transaction of `createDraft`
  unfoldable pub create_body : CreateRequest → StudentProfile → SchoolYear → Semester → M Stage
  create_body dto profile school_year semester = do
    organism_id ← resolve_organism c ids dto.organism
    tutor_id ← resolve_tutor c ids dto.tutor organism_id
    let stage =
        new_stage ids.stage env.now profile.id none (some organism_id) (some tutor_id) school_year
          semester dto.mandatory dto.service dto.project_type dto.motivation
    insert_stage stage dto.periods
    pure stage

  -- `createDraft`
  unfoldable pub create_draft : Uuid → CreateRequest → M DraftResponse
  create_draft user_id dto = do
    found ← query (find_profile user_id)
    profile ← or_throw found profile_not_found
    school_year ← or_throw (first_school_year dto.periods) no_period
    semester ← or_throw (derive_semester dto.periods) no_period
    stage ← c.transaction Stage (create_body dto profile school_year semester)
    db ← query (λ db. db)
    lift (draft_response_of c env stage db)

  -- `duplicate`
  unfoldable pub duplicate : Uuid → Uuid → M DraftResponse
  duplicate user_id source_id = do
    found ← query (find_owned c env user_id source_id)
    source ← or_throw found stage_not_found
    rows ← query (periods_of c env source.id)
    let periods = map to_period rows
    semester ← or_throw (derive_semester periods) no_period
    let stage =
        new_stage ids.stage env.now source.student_id (some source.id) source.organism_id
          source.tutor_id source.school_year semester source.mandatory source.service
          source.project_type source.motivation
    insert_stage stage periods
    db ← query (λ db. db)
    lift (draft_response_of c env stage db)
