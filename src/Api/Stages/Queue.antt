-- ===== src/Api/Stages/Queue.antt =====
-- `list` of modules/stages/admin/admin-stage-requests.service.ts: the requests that wait for a decision.
pub mod Keys
pub mod Counts
pub mod Detail
use campus_internship.Prelude.{
  ℕ, ◌-◌, ◌==◌, Bool, true, false, ◌&&◌, ◌||◌, any, Option, none, some, List, [], ◌∷◌, ◌++◌, map,
  select, length, leb, if◌then◌else◌, Text, text, text_eq,
}
use mathlib.Core.Option
use campus_internship.Shared.Enums.{
  Semester, s1, s2, semester_eq, bool_eq, Promotion, draft, pending, status_eq,
}
use campus_internship.Shared.Calendar.{Date}
use campus_internship.Shared.SchoolYear.{SchoolYear}
use campus_internship.Api.Http.{Result, ok, err, internal, js_error}
use campus_internship.Api.Schema.{
  Uuid, User, StudentProfile, ReferentProfile, ReferentAssignment, HostOrganism, Stage, StagePeriod,
  Db,
}
use campus_internship.Api.World.{M, ◌>>=◌, ◌>>◌, pure, query, or_throw, lift}
use campus_internship.Api.Prisma.{Client}
use campus_internship.Api.Snapshot.{FrozenPeriod, ReferentResponse}
use campus_internship.Api.Stages.Responses.{to_referent_response, to_period_response}
use campus_internship.Api.Referents.{Tuple, tuple_eq, tuple_of}

abbrev pub tuple_of_stage : Stage → Tuple
tuple_of_stage s = record {
  student_id = s.student_id;
  school_year = s.school_year;
  semester = s.semester;
  mandatory = s.mandatory;
}

abbrev pub semester_text : Semester → Text
semester_text s1 = text "S1"
semester_text s2 = text "S2"

abbrev pub bool_text : Bool → Text
bool_text true = text "true"
bool_text false = text "false"

-- the last three parts of a key
abbrev pub key_tail : Tuple → Text
key_tail k =
    k.school_year ++ (text "|" ++ (semester_text k.semester ++ (text "|" ++ bool_text k.mandatory)))

-- `tupleKey`; `show_id` is an id as text
unfoldable pub tuple_key : (Uuid → Text) → Tuple → Text
tuple_key show_id k = show_id k.student_id ++ (text "|" ++ key_tail k)

-- `new Map(entries).get(key)`: a later entry replaces an earlier one
unfoldable pub map_get {ℓ} : {A : Type ℓ} → Text → List (Text × A) → Option A
map_get key [] = none
map_get key (e ∷ es) =
    let rest = map_get key es in
    elim rest [ none ↦ if text_eq e.0 key then some e.1 else none | some a ↦ some a ]

-- `AdminStageRequestListItem`
pub record QueueItem : Type 0 where
  pub id : Uuid
  pub version : ℕ
  pub school_year : SchoolYear
  pub semester : Semester
  pub mandatory : Bool
  pub service : Text
  pub submitted_at : Text
  pub student_id : Uuid
  pub first_name : Text
  pub last_name : Text
  pub promotion : Promotion
  pub organism_name : Text
  pub structure_type : Text
  pub first_period : Option FrozenPeriod
  pub period_count : ℕ
  pub referent : Option ReferentResponse
  pub other_live_stage_count : ℕ

-- `{ in: ["DRAFT", "PENDING"] }`
abbrev pub is_live : Stage → Bool
is_live s = status_eq s.status draft || status_eq s.status pending

abbrev pub is_pending : Stage → Bool
is_pending s = status_eq s.status pending

-- `[{ submittedAt: "asc" }, { id: "asc" }]`: not after; the database puts rows without a date last
abbrev pub oldest_first : Stage → Stage → Bool
oldest_first s t = elim s.submitted_at [
  | none ↦ elim t.submitted_at [ none ↦ leb s.id t.id | some y ↦ false ]
  | some x ↦ elim t.submitted_at [
    | none ↦ true
    | some y ↦ if x == y then leb s.id t.id else leb x y
  ]
]

-- `groupBy` and `_count`: the groups of a list of rows
abbrev pub GroupBy : Type 0
GroupBy = List Stage → List (Tuple × ℕ)

-- the values that JavaScript holds for true
abbrev pub truthy_text : Option Text → Option Text
truthy_text none = none
truthy_text (some []) = none
truthy_text (some (u ∷ s)) = some (u ∷ s)

abbrev first_of : List FrozenPeriod → Option FrozenPeriod
first_of [] = none
first_of (p ∷ ps) = some p

abbrev pub earliest_first : StagePeriod → StagePeriod → Bool
earliest_first p q = leb p.start_date q.start_date

module _ (c : Client) (group_by : GroupBy) (show_id : Uuid → Text) where
  -- the requests, in their order
  unfoldable pub queued : Db → List Stage
  queued db = c.order_by Stage oldest_first (c.find_many Stage is_pending db.stages)

  -- `{ in: studentIds }`
  abbrev pub in_queue : Db → Uuid → Bool
  in_queue db id = any (λ (t : Stage). t.student_id == id) (queued db)

  -- `liveStageCounts`
  unfoldable pub live_stage_counts : Db → List (Tuple × ℕ)
  live_stage_counts db =
      group_by (c.find_many Stage (λ s. in_queue db s.student_id && is_live s) db.stages)

  -- `liveCountByTuple.get(tupleKey(stage))`
  unfoldable pub live_count : Db → Stage → Option ℕ
  live_count db s =
      map_get (tuple_key show_id (tuple_of_stage s))
        (map (λ (g : Tuple × ℕ). (tuple_key show_id g.0, g.1)) (live_stage_counts db))

  -- `referentByTuple.get(tupleKey(stage))`
  unfoldable pub assignment_for : Db → Stage → Option ReferentAssignment
  assignment_for db s = map_get (tuple_key show_id (tuple_of_stage s)) (
      map (λ (a : ReferentAssignment). (tuple_key show_id (tuple_of a), a))
        (c.find_many ReferentAssignment (λ a. in_queue db a.student_id) db.assignments))

  abbrev organism_in : Db → Option Uuid → Option HostOrganism
  organism_in db none = none
  organism_in db (some id) = c.find_first HostOrganism (λ o. o.id == id) db.organisms

  abbrev response_of : Db → Option ReferentAssignment → Option ReferentResponse
  response_of db none = none
  response_of db (some a) =
      elim (c.find_first ReferentProfile (λ r. r.id == a.referent_id) db.referents) [
        | none ↦ none
        | some r ↦
            Option.map (λ u. to_referent_response r u)
              (c.find_first User (λ u. u.id == r.user_id) db.users)
      ]

  module _ (to_iso_string : Date → Text) where
    -- the callback of `stages.map`, with its two guards
    unfoldable pub to_queue_item : Db → Stage → M QueueItem
    to_queue_item db s = do
      let incomplete = internal "PENDING stage has no submittedAt, organism, promotion, or service"
      student ←
          or_throw (c.find_first StudentProfile (λ p. p.id == s.student_id) db.profiles)
            (js_error "student is null")
      user ←
          or_throw (c.find_first User (λ u. u.id == student.user_id) db.users)
            (js_error "user is null")
      submitted_at ← or_throw s.submitted_at incomplete
      organism ← or_throw (organism_in db s.organism_id) incomplete
      promotion ← or_throw student.promotion incomplete
      service ← or_throw (truthy_text s.service) incomplete
      count ←
          or_throw (live_count db s)
            (internal "PENDING stage is missing from its own live tuple group")
      let periods = map (to_period_response to_iso_string) (
          c.order_by StagePeriod earliest_first
            (c.find_many StagePeriod (λ p. p.stage_id == s.id) db.periods))
      pure (record {
        id = s.id;
        version = s.version;
        school_year = s.school_year;
        semester = s.semester;
        mandatory = s.mandatory;
        service = service;
        submitted_at = to_iso_string submitted_at;
        student_id = student.id;
        first_name = user.first_name;
        last_name = user.last_name;
        promotion = promotion;
        organism_name = organism.input.name;
        structure_type = organism.input.structure_type;
        first_period = first_of periods;
        period_count = length periods;
        referent = response_of db (assignment_for db s);
        other_live_stage_count = count - 1;
      })

    unfoldable pub to_queue_items : Db → List Stage → M (List QueueItem)
    to_queue_items db [] = pure []
    to_queue_items db (s ∷ ss) = do
      item ← to_queue_item db s
      items ← to_queue_items db ss
      pure (item ∷ items)

    -- `list`, whose reads are one snapshot
    unfoldable pub list_requests : M (List QueueItem)
    list_requests = do db ← c.transaction Db (query (λ db. db)); to_queue_items db (queued db)
