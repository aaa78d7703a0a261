-- ===== src/Api/Stages/Read.antt =====
-- `getById` of the student's service: the one path on which a stage is read.
use mathlib.Core.Option
use campus_internship.Prelude.{◌==◌, Bool, ◌&&◌, Option, none, some, List, text_eq, if◌then◌else◌}
use campus_internship.Shared.Enums.{Semester, semester_eq, bool_eq}
use campus_internship.Shared.SchoolYear.{SchoolYear}
use campus_internship.Api.Http.{Error, Result, not_found, internal}
use campus_internship.Api.Schema.{
  Uuid, Stage, StagePeriod, HostOrganism, Tutor, ReferentAssignment, ReferentProfile, User, Db,
}
use campus_internship.Api.World.{
  Env, M, ◌>>=◌, ◌>>◌, pure, query, log, or_throw, lift, map_result, unreadable_snapshot,
}
use campus_internship.Api.Prisma.{Client}
use campus_internship.Api.Snapshot.{Snapshot, ReferentResponse, parse_stage_snapshot}
use campus_internship.Api.Stages.Responses.{
  DraftResponse, DetailResponse, to_response, to_decided_response, to_referent_response,
}
use campus_internship.Api.Stages.Freeze.{is_decided, is_owned_by, load_editable}

abbrev pub stage_not_found : Error
stage_not_found = not_found "Demande de stage introuvable"

-- the key of `studentId_schoolYear_semester_mandatory`
abbrev pub same_tuple : Uuid → SchoolYear → Semester → Bool → ReferentAssignment → Bool
same_tuple student_id school_year semester mandatory a =
    (a.student_id == student_id)
    && text_eq a.school_year school_year
    && semester_eq a.semester semester
    && bool_eq a.mandatory mandatory

module _ (c : Client) (env : Env) where
  -- the relations that `include` loads
  abbrev pub organism_of : Stage → Db → Option HostOrganism
  organism_of s db = elim s.organism_id [
    | none ↦ none
    | some id ↦ c.find_first HostOrganism (λ o. o.id == id) db.organisms
  ]

  abbrev pub tutor_of : Stage → Db → Option Tutor
  tutor_of s db = elim s.tutor_id [
    | none ↦ none
    | some id ↦ c.find_first Tutor (λ t. t.id == id) db.tutors
  ]

  abbrev pub periods_of : Uuid → Db → List StagePeriod
  periods_of id db = c.find_many StagePeriod (λ p. p.stage_id == id) db.periods

  -- the lookup of every operation of a student: by id and owner
  abbrev pub find_owned : Uuid → Uuid → Db → Option Stage
  find_owned user_id stage_id db =
      c.find_first Stage (λ s. (s.id == stage_id) && is_owned_by db user_id s) db.stages

  -- the referent assigned for a tuple, with the user
  unfoldable pub assigned_referent :
      Uuid → SchoolYear → Semester → Bool → Db → Option (ReferentProfile × User)
  assigned_referent student_id school_year semester mandatory db =
      elim (c.find_first ReferentAssignment (same_tuple student_id school_year semester mandatory)
        db.assignments) [
          | none ↦ none
          | some a ↦ elim (c.find_first ReferentProfile (λ r. r.id == a.referent_id) db.referents) [
            | none ↦ none
            | some r ↦
                Option.map (λ u. (r, u)) (c.find_first User (λ u. u.id == r.user_id) db.users)
          ]
        ]

  abbrev pub referent_response_of : Stage → Db → Option ReferentResponse
  referent_response_of s db =
      Option.map (λ (r : ReferentProfile × User). to_referent_response r.0 r.1)
        (assigned_referent s.student_id s.school_year s.semester s.mandatory db)

  -- `tryReadSnapshot`
  unfoldable pub try_read_snapshot : Stage → M (Option Snapshot)
  try_read_snapshot s = elim (parse_stage_snapshot env.is_datetime s.snapshot s.snapshot_version) [
    | some snapshot ↦ pure (some snapshot)
    | none ↦ log (unreadable_snapshot s.id) >> pure none
  ]

  -- `readSnapshot`
  unfoldable pub read_snapshot : Stage → M Snapshot
  read_snapshot s = do
    snapshot ← try_read_snapshot s
    or_throw snapshot (internal "Impossible de lire cette demande de stage.")

  -- `toResponse` of a stage with its relations loaded
  abbrev pub draft_response_of : Stage → Db → Result DraftResponse
  draft_response_of s db =
      to_response env.to_iso_string s (organism_of s db) (tutor_of s db) (periods_of s.id db)
        (load_editable c s db)

  -- the last part of `getById`, for a stage that is not decided
  unfoldable pub live_response : Stage → Db → Result DetailResponse
  live_response s db =
      map_result
        (λ draft. record {
          draft = draft;
          submitted_at = Option.map env.to_iso_string s.submitted_at;
          decided_at = none;
          refusal_reason = s.refusal_reason;
          referent = referent_response_of s db;
        })
        (draft_response_of s db)

  -- `getById`
  unfoldable pub get_by_id : Uuid → Uuid → M DetailResponse
  get_by_id user_id stage_id = do
    found ← query (find_owned user_id stage_id)
    stage ← or_throw found stage_not_found
    if is_decided stage
        then (do
          snapshot ← read_snapshot stage
          pure (to_decided_response env.to_iso_string stage snapshot))
        else (do db ← query (λ db. db); lift (live_response stage db))
