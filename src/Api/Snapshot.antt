-- ===== src/Api/Snapshot.antt =====
-- apps/api/src/modules/stages/stage-snapshot.schema.ts: the document frozen by a decision.
pub mod RoundTrip
use campus_internship.Prelude.{
  ℕ, ◌==◌, Bool, true, false, Option, none, some, List, [], ◌∷◌, if◌then◌else◌, Text, text, text_eq,
}
use campus_internship.Shared.Enums.{Semester, s1, s2, Promotion, l2, l3}
use campus_internship.Shared.SchoolYear.{SchoolYear, school_year_schema}
use campus_internship.Api.Json.{
  Json, null, bool, id, str, arr, obj, Items, nil, cons, Members, end, member, get, ◌>>=◌, as_str,
  as_id, as_bool, as_obj, as_arr, as_nullable_str, nullable_str,
}
use campus_internship.Api.Schema.{Uuid, OrganismInput, TutorInput}

pub record FrozenOrganism : Type 0 where
  pub id : Uuid
  pub input : OrganismInput
  pub open input use *

pub record FrozenTutor : Type 0 where
  pub id : Uuid
  pub input : TutorInput
  pub open input use *

pub record FrozenPeriod : Type 0 where
  pub id : Uuid
  pub start_date : Text
  pub end_date : Text

-- `StageReferentResponse`, which the snapshot freezes as it is
pub record ReferentResponse : Type 0 where
  pub id : Uuid
  pub first_name : Text
  pub last_name : Text

pub record DecidedBy : Type 0 where
  pub id : Uuid
  pub first_name : Text
  pub last_name : Text
  pub title : Text

-- `StageSnapshot`
pub record Snapshot : Type 0 where
  pub school_year : SchoolYear
  pub semester : Semester
  pub mandatory : Bool
  pub service : Option Text
  pub project_type : Option Text
  pub motivation : Option Text
  pub organism : FrozenOrganism
  pub tutor : FrozenTutor
  pub periods : List FrozenPeriod
  pub referent : ReferentResponse
  pub promotion : Promotion
  pub decided_at : Text
  pub decided_by : DecidedBy

-- `CURRENT_STAGE_SNAPSHOT_VERSION`
abbrev pub current_stage_snapshot_version : ℕ
current_stage_snapshot_version = 1

-- `z.enum(SEMESTERS)` and `z.enum(PROMOTIONS)`
abbrev semester_text : Semester → Text
semester_text s1 = text "S1"
semester_text s2 = text "S2"

abbrev promotion_text : Promotion → Text
promotion_text l2 = text "L2"
promotion_text l3 = text "L3"

parse_semester : Text → Option Semester
parse_semester s =
    if text_eq s (text "S1") then some s1 else if text_eq s (text "S2") then some s2 else none

parse_promotion : Text → Option Promotion
parse_promotion s =
    if text_eq s (text "L2") then some l2 else if text_eq s (text "L3") then some l3 else none

parse_organism : Members → Option FrozenOrganism
parse_organism o = do
  oid ← get "id" o >>= as_id
  name ← get "name" o >>= as_str
  structure_type ← get "structureType" o >>= as_str
  city ← get "city" o >>= as_str
  postal_code ← get "postalCode" o >>= as_str
  street ← get "street" o >>= as_str
  some (record {
    id = oid;
    input = record {
      name = name;
      structure_type = structure_type;
      city = city;
      postal_code = postal_code;
      street = street;
    };
  })

parse_tutor : Members → Option FrozenTutor
parse_tutor o = do
  tid ← get "id" o >>= as_id
  first_name ← get "firstName" o >>= as_str
  last_name ← get "lastName" o >>= as_str
  email ← get "email" o >>= as_str
  job_title ← get "jobTitle" o >>= as_str
  phone ← get "phone" o >>= as_nullable_str
  accepts ← get "acceptsPhoneContact" o >>= as_bool
  some (record {
    id = tid;
    input = record {
      first_name = first_name;
      last_name = last_name;
      email = email;
      job_title = job_title;
      phone = phone;
      accepts_phone_contact = accepts;
    };
  })

parse_referent : Members → Option ReferentResponse
parse_referent o = do
  rid ← get "id" o >>= as_id
  first_name ← get "firstName" o >>= as_str
  last_name ← get "lastName" o >>= as_str
  some (record { id = rid; first_name = first_name; last_name = last_name })

parse_decided_by : Members → Option DecidedBy
parse_decided_by o = do
  aid ← get "id" o >>= as_id
  first_name ← get "firstName" o >>= as_str
  last_name ← get "lastName" o >>= as_str
  title ← get "title" o >>= as_str
  some (record { id = aid; first_name = first_name; last_name = last_name; title = title })

-- `z.string().datetime()`, a check of the library
module _ (is_datetime : Text → Bool) where
  check_datetime : Text → Option Text
  check_datetime s = if is_datetime s then some s else none

  parse_period : Members → Option FrozenPeriod
  parse_period o = do
    pid ← get "id" o >>= as_id
    start_date ← get "startDate" o >>= as_str >>= check_datetime
    end_date ← get "endDate" o >>= as_str >>= check_datetime
    some (record { id = pid; start_date = start_date; end_date = end_date })

  parse_periods : Items → Option (List FrozenPeriod)
  parse_periods nil = some []
  parse_periods (cons j js) =
      let rest = parse_periods js in as_obj j >>= parse_period >>= λ p. rest >>= λ ps. some (p ∷ ps)

  -- `stageSnapshotV1Schema`
  parse_v1 : Members → Option Snapshot
  parse_v1 o = do
    school_year ← get "schoolYear" o >>= as_str >>= school_year_schema
    semester ← get "semester" o >>= as_str >>= parse_semester
    mandatory ← get "mandatory" o >>= as_bool
    service ← get "service" o >>= as_nullable_str
    project_type ← get "projectType" o >>= as_nullable_str
    motivation ← get "motivation" o >>= as_nullable_str
    organism ← get "organism" o >>= as_obj >>= parse_organism
    tutor ← get "tutor" o >>= as_obj >>= parse_tutor
    periods ← get "periods" o >>= as_arr >>= parse_periods
    referent ← get "referent" o >>= as_obj >>= parse_referent
    promotion ← get "promotion" o >>= as_str >>= parse_promotion
    decided_at ← get "decidedAt" o >>= as_str >>= check_datetime
    decided_by ← get "decidedBy" o >>= as_obj >>= parse_decided_by
    some (record {
      school_year = school_year;
      semester = semester;
      mandatory = mandatory;
      service = service;
      project_type = project_type;
      motivation = motivation;
      organism = organism;
      tutor = tutor;
      periods = periods;
      referent = referent;
      promotion = promotion;
      decided_at = decided_at;
      decided_by = decided_by;
    })

  -- `parseStageSnapshot`; `none` is the error that it throws
  pub parse_stage_snapshot : Option Json → Option ℕ → Option Snapshot
  parse_stage_snapshot snapshot none = none
  parse_stage_snapshot none (some version) = none
  parse_stage_snapshot (some j) (some version) =
      if version == 1 then as_obj j >>= parse_v1 else none

organism_json : FrozenOrganism → Json
organism_json o = obj (
    member "id" (id o.id) (
      member "name" (str o.name) (
        member "structureType" (str o.structure_type) (
          member "city" (str o.city)
            (member "postalCode" (str o.postal_code) (member "street" (str o.street) end))))))

tutor_json : FrozenTutor → Json
tutor_json t = obj (
    member "id" (id t.id) (
      member "firstName" (str t.first_name) (
        member "lastName" (str t.last_name) (
          member "email" (str t.email) (
            member "jobTitle" (str t.job_title) (
              member "phone" (nullable_str t.phone)
                (member "acceptsPhoneContact" (bool t.accepts_phone_contact) end)))))))

period_json : FrozenPeriod → Json
period_json p = obj (
    member "id" (id p.id)
      (member "startDate" (str p.start_date) (member "endDate" (str p.end_date) end)))

periods_json : List FrozenPeriod → Items
periods_json [] = nil
periods_json (p ∷ ps) = cons (period_json p) (periods_json ps)

referent_json : ReferentResponse → Json
referent_json r = obj (
    member "id" (id r.id)
      (member "firstName" (str r.first_name) (member "lastName" (str r.last_name) end)))

decided_by_json : DecidedBy → Json
decided_by_json a = obj (
    member "id" (id a.id) (
      member "firstName" (str a.first_name)
        (member "lastName" (str a.last_name) (member "title" (str a.title) end))))

-- A snapshot as the object that is written to the column.
unfoldable pub snapshot_json : Snapshot → Json
unfolding organism_json tutor_json periods_json period_json referent_json decided_by_json
snapshot_json s = obj (
    member "schoolYear" (str s.school_year) (
      member "semester" (str (semester_text s.semester)) (
        member "mandatory" (bool s.mandatory) (
          member "service" (nullable_str s.service) (
            member "projectType" (nullable_str s.project_type) (
              member "motivation" (nullable_str s.motivation) (
                member "organism" (organism_json s.organism) (
                  member "tutor" (tutor_json s.tutor) (
                    member "periods" (arr (periods_json s.periods)) (
                      member "referent" (referent_json s.referent) (
                        member "promotion" (str (promotion_text s.promotion)) (
                          member "decidedAt" (str s.decided_at)
                            (member "decidedBy" (decided_by_json s.decided_by) end)))))))))))))
