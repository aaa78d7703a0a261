-- ===== src/Api/Stages/Freeze.antt =====
-- Which rows a draft may still correct in place: `isFrozen` and `loadEditable`.
use campus_internship.Prelude.{
  ◌==◌, Bool, true, false, not, ◌&&◌, ◌||◌, Option, none, some, any, ltb, if◌then◌else◌,
}
use campus_internship.Shared.Enums.{draft, validated, refused, status_eq}
use campus_internship.Api.Schema.{Uuid, Stage, Db, StudentProfile}
use campus_internship.Api.Prisma.{Client}
use campus_internship.Api.Stages.Responses.{EditableFlags}

-- `isDecided`
abbrev pub is_decided : Stage → Bool
is_decided s = status_eq s.status validated || status_eq s.status refused

abbrev pub refers_to : Option Uuid → Uuid → Bool
refers_to none id = false
refers_to (some other) id = other == id

-- the references `{ organismId }` and `{ tutorId }`
abbrev pub uses_organism : Uuid → Stage → Bool
uses_organism id s = refers_to s.organism_id id

abbrev pub uses_tutor : Uuid → Stage → Bool
uses_tutor id s = refers_to s.tutor_id id

-- `{ status: "DRAFT", studentId }`
abbrev pub is_own_draft : Uuid → Stage → Bool
is_own_draft student_id s = status_eq s.status draft && (s.student_id == student_id)

-- the filter `student: { userId }` of the ownership lookups
abbrev pub is_owned_by : Db → Uuid → Stage → Bool
is_owned_by db user_id s =
    any (λ (p : StudentProfile). (p.id == s.student_id) && (p.user_id == user_id)) db.profiles

module _ (c : Client) where
  -- `isFrozen`
  unfoldable pub is_frozen : (Stage → Bool) → Uuid → Db → Bool
  is_frozen reference student_id db =
      ltb 0 (c.count Stage (λ s. reference s && not (is_own_draft student_id s)) db.stages)

  abbrev frozen_reference : (Uuid → Stage → Bool) → Option Uuid → Uuid → Db → Bool
  frozen_reference reference none student_id db = true
  frozen_reference reference (some id) student_id db = is_frozen (reference id) student_id db

  -- `loadEditable`
  unfoldable pub load_editable : Stage → Db → EditableFlags
  load_editable s db =
      if status_eq s.status draft
      then record {
        organism = not (frozen_reference uses_organism s.organism_id s.student_id db);
        tutor = not (frozen_reference uses_tutor s.tutor_id s.student_id db);
      }
      else record { organism = false; tutor = false }
