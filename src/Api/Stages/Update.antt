-- ===== src/Api/Stages/Update.antt =====
-- `updateDraft`: the replacement of the content of a draft.
use campus_internship.Prelude.{ℕ, ◌+◌, ◌==◌, Bool, not, ◌&&◌, Option, some, List, Text}
use campus_internship.Shared.Enums.{Semester, draft, status_eq}
use campus_internship.Shared.SchoolYear.{SchoolYear}
use campus_internship.Shared.StagePeriod.{Period, derive_semester}
use campus_internship.Api.Http.{not_draft}
use campus_internship.Api.Schema.{Uuid, OrganismInput, TutorInput, Stage, StagePeriod}
use campus_internship.Api.World.{Env, M, ◌>>=◌, ◌>>◌, query, write, require, or_throw}
use campus_internship.Api.Prisma.{Client}
use campus_internship.Api.Stages.Responses.{DetailResponse, stage_conflict, version_conflict_error}
use campus_internship.Api.Stages.Read.{stage_not_found, find_owned, get_by_id}
use campus_internship.Api.Stages.Resolve.{
  UpdateChoice, Ids, resolve_organism_for_update, resolve_tutor_for_update,
}
use campus_internship.Api.Stages.Create.{no_period, first_school_year, period_rows}

-- `UpdateStageDraftRequest`
pub record UpdateRequest : Type 0 where
  pub version : ℕ
  pub organism : UpdateChoice OrganismInput
  pub tutor : UpdateChoice TutorInput
  pub periods : List Period
  pub service : Option Text
  pub project_type : Option Text
  pub motivation : Option Text
  pub mandatory : Bool

-- the filter of the conditional write
abbrev pub is_draft_at : Uuid → ℕ → Stage → Bool
is_draft_at id version s = (s.id == id) && status_eq s.status draft && (s.version == version)

-- its data
abbrev pub rewritten : UpdateRequest → SchoolYear → Semester → Uuid → Uuid → Stage → Stage
rewritten dto school_year semester organism_id tutor_id s = record s {
  organism_id = some organism_id;
  tutor_id = some tutor_id;
  school_year = school_year;
  semester = semester;
  mandatory = dto.mandatory;
  service = dto.service;
  project_type = dto.project_type;
  motivation = dto.motivation;
  version = s.version + 1;
}

module _ (c : Client) (env : Env) (ids : Ids) where
  -- the conditional write of the stage
  unfoldable pub rewrite_stage : UpdateRequest → SchoolYear → Semester → Uuid → Uuid → Uuid → M ℕ
  rewrite_stage dto school_year semester organism_id tutor_id stage_id = write λ db.
      let (n, rows) =
        c.update_many Stage (is_draft_at stage_id dto.version)
          (rewritten dto school_year semester organism_id tutor_id) db.stages in
      (n, record db { stages = rows })

  -- the replacement of its periods
  unfoldable pub replace_periods : Uuid → List Period → M (Unit {0})
  replace_periods stage_id periods = write λ db.
      let (_, kept) = c.delete_many StagePeriod (λ p. p.stage_id == stage_id) db.periods in
      (
        tt,
        record db {
          periods = c.create_many StagePeriod (period_rows ids.period 0 stage_id periods) kept;
        },
      )

  -- the body of the transaction
  unfoldable pub update_body : Uuid → Uuid → UpdateRequest → SchoolYear → Semester → M (Unit {0})
  update_body user_id stage_id dto school_year semester = do
    found ← query (find_owned c env user_id stage_id)
    stage ← or_throw found stage_not_found
    require (status_eq stage.status draft)
        (stage_conflict not_draft "Seul un brouillon peut être modifié")
    require (stage.version == dto.version) version_conflict_error
    organism_id ← resolve_organism_for_update c ids stage dto.organism
    tutor_id ← resolve_tutor_for_update c ids stage dto.tutor organism_id
    count ← rewrite_stage dto school_year semester organism_id tutor_id stage.id
    require (not (count == 0)) version_conflict_error
    replace_periods stage.id dto.periods

  -- `updateDraft`
  unfoldable pub update_draft : Uuid → Uuid → UpdateRequest → M DetailResponse
  update_draft user_id stage_id dto = do
    school_year ← or_throw (first_school_year dto.periods) no_period
    semester ← or_throw (derive_semester dto.periods) no_period
    c.transaction (Unit {0}) (update_body user_id stage_id dto school_year semester)
    get_by_id c env user_id stage_id
