-- ===== src/Api/Stages/Listing.antt =====
-- `list` of the student's service: the filter, the items and their order.
pub mod Ranking
pub mod Splitting
pub mod Order
pub mod Stable
use mathlib.Core.Option
use campus_internship.Prelude.{
  ℕ, ◌+◌, ◌*◌, ◌/◌, ◌==◌, Bool, true, false, ◌&&◌, Option, none, some, List, [], ◌∷◌, ◌++◌, map,
  select, ltb, leb, if◌then◌else◌, Text,
}
use campus_internship.Prelude.Sorting.{sort_by}
use campus_internship.Shared.Enums.{Semester, semester_eq, StageStatus, status_eq}
use campus_internship.Shared.Calendar.{Date, ms_per_day}
use campus_internship.Shared.SchoolYear.{SchoolYear}
use campus_internship.Api.Schema.{Uuid, HostOrganism, Stage, StudentProfile, Db}
use campus_internship.Api.World.{Env, M, ◌>>=◌, ◌>>◌, pure, query, or_throw}
use campus_internship.Api.Prisma.{Client}
use campus_internship.Api.Snapshot.{Snapshot, FrozenPeriod}
use campus_internship.Api.Stages.Responses.{to_period_response}
use campus_internship.Api.Stages.Freeze.{is_decided}
use campus_internship.Api.Stages.Read.{organism_of, periods_of, try_read_snapshot}
use campus_internship.Api.Stages.Create.{profile_not_found}

-- `STAGE_LIST_SORTS`
pub data StageListSort : Type 0 where
  start_date submitted_at : StageListSort

-- `ListStagesQuery`
pub record ListStagesQuery : Type 0 where
  pub status : Option StageStatus
  pub semester : Option Semester
  pub sort : StageListSort

-- `StageListItemResponse`
pub record ListItem : Type 0 where
  pub id : Uuid
  pub status : StageStatus
  pub submitted_at : Option Text
  pub school_year : SchoolYear
  pub semester : Semester
  pub mandatory : Bool
  pub organism_name : Option Text
  pub periods : List FrozenPeriod

-- `startOfTodayUtc`
unfoldable pub start_of_today_utc : Date → Date
start_of_today_utc now = now / ms_per_day * ms_per_day

-- `RankedStage`
pub record RankedStage : Type 0 where
  pub stage : ListItem
  pub ranking_start_time : Date

-- the three arrays of the loop
pub record Blocks : Type 0 where
  pub upcoming_stages : List RankedStage
  pub past_stages : List RankedStage
  pub stages_without_period : List ListItem

-- `Math.min(...times)` and `Math.max(...times)` of a list that is not empty
unfoldable pub minimum : Date → List Date → Date
minimum t [] = t
minimum t (u ∷ us) = minimum (if ltb u t then u else t) us

unfoldable pub maximum : Date → List Date → Date
maximum t [] = t
maximum t (u ∷ us) = maximum (if ltb t u then u else t) us

-- the block of a stage, with the time that ranks it there
pub data Rank : Type 0 where
  upcoming : Date → Rank
  past : Date → Rank
  no_period : Rank

-- the two tests of the loop body, on the start times and on those that are not past
abbrev rank_of_times : List Date → List Date → Rank
rank_of_times [] ahead = no_period
rank_of_times (t ∷ ts) [] = past (maximum t ts)
rank_of_times (t ∷ ts) (u ∷ us) = upcoming (minimum u us)

-- the comparisons of the two sorts: not after
abbrev pub nearest_first : RankedStage → RankedStage → Bool
nearest_first earlier later = leb earlier.ranking_start_time later.ranking_start_time

abbrev pub most_recent_first : RankedStage → RankedStage → Bool
most_recent_first earlier later = leb later.ranking_start_time earlier.ranking_start_time

-- `parse` is `Date.parse`
module _ (parse : Text → Date) (now : Date) where
  unfoldable pub rank_of : ListItem → Rank
  rank_of item =
      let times = map (λ (p : FrozenPeriod). parse p.start_date) item.periods in
      rank_of_times times (select (leb (start_of_today_utc now)) times)

  -- `push` onto the array of the block
  abbrev pub place : Rank → ListItem → Blocks → Blocks
  place (upcoming t) s b = record b {
    upcoming_stages = b.upcoming_stages ++ record { stage = s; ranking_start_time = t } ∷ [];
  }
  place (past t) s b = record b {
    past_stages = b.past_stages ++ record { stage = s; ranking_start_time = t } ∷ [];
  }
  place no_period s b = record b { stages_without_period = b.stages_without_period ++ s ∷ [] }

  -- the loop of `sortByNearestStart`
  unfoldable pub split_blocks : List ListItem → Blocks → Blocks
  split_blocks [] b = b
  split_blocks (s ∷ ss) b = split_blocks ss (place (rank_of s) s b)

  -- `sortByNearestStart`
  unfoldable pub sort_by_nearest_start : List ListItem → List ListItem
  sort_by_nearest_start stages =
      let b =
        split_blocks stages
          (record { upcoming_stages = []; past_stages = []; stages_without_period = [] }) in
      map (λ (r : RankedStage). r.stage) (sort_by nearest_first b.upcoming_stages)
      ++ (map (λ (r : RankedStage). r.stage) (sort_by most_recent_first b.past_stages)
          ++ b.stages_without_period)

-- the spread conditions of the filter
abbrev pub matches_status : Option StageStatus → Stage → Bool
matches_status none s = true
matches_status (some status) s = status_eq s.status status

abbrev pub matches_semester : Option Semester → Stage → Bool
matches_semester none s = true
matches_semester (some semester) s = semester_eq s.semester semester

-- `[{ submittedAt: { sort: "desc", nulls: "last" } }, { createdAt: "desc" }]`: not after
abbrev pub newest_first : Stage → Stage → Bool
newest_first s t = elim s.submitted_at [
  | none ↦ elim t.submitted_at [ none ↦ leb t.created_at s.created_at | some y ↦ false ]
  | some x ↦ elim t.submitted_at [
    | none ↦ true
    | some y ↦ if x == y then leb t.created_at s.created_at else ltb y x
  ]
]

module _ (c : Client) (env : Env) where
  abbrev iso_submitted : Stage → Option Text
  iso_submitted s = Option.map env.to_iso_string s.submitted_at

  -- the item of a stage that is not decided
  abbrev pub live_item : Stage → Db → ListItem
  live_item s db = record {
    id = s.id;
    status = s.status;
    submitted_at = iso_submitted s;
    school_year = s.school_year;
    semester = s.semester;
    mandatory = s.mandatory;
    organism_name = Option.map (λ (o : HostOrganism). o.input.name) (organism_of c env s db);
    periods = map (to_period_response env.to_iso_string) (periods_of c env s.id db);
  }

  -- the item of a decided stage, with its snapshot if that can be read
  abbrev pub decided_item : Stage → Option Snapshot → ListItem
  decided_item s none = record {
    id = s.id;
    status = s.status;
    submitted_at = iso_submitted s;
    school_year = s.school_year;
    semester = s.semester;
    mandatory = s.mandatory;
    organism_name = none;
    periods = [];
  }
  decided_item s (some snapshot) = record {
    id = s.id;
    status = s.status;
    submitted_at = iso_submitted s;
    school_year = snapshot.school_year;
    semester = snapshot.semester;
    mandatory = snapshot.mandatory;
    organism_name = some snapshot.organism.input.name;
    periods = snapshot.periods;
  }

  -- `toListItem`
  unfoldable pub to_list_item : Stage → M ListItem
  to_list_item s =
      if is_decided s
      then (do snapshot ← try_read_snapshot c env s; pure (decided_item s snapshot))
      else query (live_item s)

  -- `stages.map`
  unfoldable pub to_list_items : List Stage → M (List ListItem)
  to_list_items [] = pure []
  to_list_items (s ∷ ss) = do item ← to_list_item s; items ← to_list_items ss; pure (item ∷ items)

  abbrev pub is_listed : StudentProfile → ListStagesQuery → Stage → Bool
  is_listed profile q s =
      (s.student_id == profile.id) && matches_status q.status s && matches_semester q.semester s

  abbrev sorted_as : StageListSort → (Text → Date) → List ListItem → List ListItem
  sorted_as start_date parse items = sort_by_nearest_start parse env.now items
  sorted_as submitted_at parse items = items

  -- `list`
  unfoldable pub list : (Text → Date) → Uuid → ListStagesQuery → M (List ListItem)
  list parse user_id q = do
    found ← query (λ db. c.find_first StudentProfile (λ p. p.user_id == user_id) db.profiles)
    profile ← or_throw found profile_not_found
    stages ←
        query
          (λ db. c.order_by Stage newest_first (c.find_many Stage (is_listed profile q) db.stages))
    items ← to_list_items stages
    pure (sorted_as q.sort parse items)
