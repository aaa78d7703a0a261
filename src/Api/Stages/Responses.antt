-- ===== src/Api/Stages/Responses.antt =====
-- What the stage services answer (packages/shared/src/contracts/stages.contract.ts), and how they
-- shape it: `toResponse`, `toPeriodResponse`, `toReferentResponse` and `toDecidedResponse`.
use mathlib.Core.Option
use campus_internship.Prelude.{ℕ, String, Bool, false, Option, none, some, List, map, Text}
use campus_internship.Shared.Enums.{Semester, StageStatus}
use campus_internship.Shared.Calendar.{Date}
use campus_internship.Shared.SchoolYear.{SchoolYear}
use campus_internship.Api.Http.{
  Error, Result, ok, err, conflict, js_error, ConflictCode, version_conflict,
}
use campus_internship.Api.Schema.{
  Uuid, OrganismInput, TutorInput, HostOrganism, Tutor, Stage, StagePeriod, ReferentProfile, User,
}
use campus_internship.Api.Snapshot.{Snapshot, FrozenPeriod, ReferentResponse}

-- `EditableFlags`
pub record EditableFlags : Type 0 where
  pub organism : Bool
  pub tutor : Bool

pub record OrganismResponse : Type 0 where
  pub id : Uuid
  pub input : OrganismInput
  pub editable : Bool

pub record TutorResponse : Type 0 where
  pub id : Uuid
  pub input : TutorInput
  pub editable : Bool

-- `StageDraftResponse`
pub record DraftResponse : Type 0 where
  pub id : Uuid
  pub status : StageStatus
  pub version : ℕ
  pub school_year : SchoolYear
  pub semester : Semester
  pub mandatory : Bool
  pub service : Option Text
  pub project_type : Option Text
  pub motivation : Option Text
  pub organism : OrganismResponse
  pub tutor : TutorResponse
  pub periods : List FrozenPeriod

-- `StageDetailResponse`
pub record DetailResponse : Type 0 where
  pub draft : DraftResponse
  pub submitted_at : Option Text
  pub decided_at : Option Text
  pub refusal_reason : Option Text
  pub referent : Option ReferentResponse

-- `stageConflict`
abbrev pub stage_conflict : ConflictCode → String → Error
stage_conflict code message = conflict (some code) message

-- `versionConflict`
abbrev pub version_conflict_error : Error
version_conflict_error =
    stage_conflict version_conflict
      "Cette demande a été modifiée entre-temps. Rechargez la page pour la modifier."

-- `toPeriodResponse`
unfoldable pub to_period_response : (Date → Text) → StagePeriod → FrozenPeriod
to_period_response iso p = record {
  id = p.id;
  start_date = iso p.start_date;
  end_date = iso p.end_date;
}

-- `toReferentResponse`
unfoldable pub to_referent_response : ReferentProfile → User → ReferentResponse
to_referent_response r u = record { id = r.id; first_name = u.first_name; last_name = u.last_name }

-- `toResponse`; a missing relation is the `TypeError` of `stage.organism!.id`
unfoldable pub to_response :
    (Date → Text)
    → Stage
    → Option HostOrganism
    → Option Tutor
    → List StagePeriod
    → EditableFlags
    → Result DraftResponse
to_response iso stage none tutor periods editable = err (js_error "organism is null")
to_response iso stage (some o) none periods editable = err (js_error "tutor is null")
to_response iso stage (some o) (some t) periods editable = ok (record {
  id = stage.id;
  status = stage.status;
  version = stage.version;
  school_year = stage.school_year;
  semester = stage.semester;
  mandatory = stage.mandatory;
  service = stage.service;
  project_type = stage.project_type;
  motivation = stage.motivation;
  organism = record { id = o.id; input = o.input; editable = editable.organism };
  tutor = record { id = t.id; input = t.input; editable = editable.tutor };
  periods = map (to_period_response iso) periods;
})

-- `toDecidedResponse`
unfoldable pub to_decided_response : (Date → Text) → Stage → Snapshot → DetailResponse
to_decided_response iso stage snapshot = record {
  draft = record {
    id = stage.id;
    status = stage.status;
    version = stage.version;
    school_year = snapshot.school_year;
    semester = snapshot.semester;
    mandatory = snapshot.mandatory;
    service = snapshot.service;
    project_type = snapshot.project_type;
    motivation = snapshot.motivation;
    organism = record {
      id = snapshot.organism.id;
      input = snapshot.organism.input;
      editable = false;
    };
    tutor = record { id = snapshot.tutor.id; input = snapshot.tutor.input; editable = false };
    periods = snapshot.periods;
  };
  submitted_at = Option.map iso stage.submitted_at;
  decided_at = some snapshot.decided_at;
  refusal_reason = stage.refusal_reason;
  referent = some snapshot.referent;
}
