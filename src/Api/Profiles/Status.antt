-- ===== src/Api/Profiles/Status.antt =====
-- modules/students/students.service.ts: the files that count, and the status that they lead to.
pub mod Laws
use campus_internship.Prelude.{
  ℕ, ◌==◌, Bool, true, false, not, ◌&&◌, ◌||◌, Option, none, some, List, [], ◌∷◌, any,
  if◌then◌else◌, ltb, leb,
}
use campus_internship.Shared.Enums.{
  ProfileStatus, incomplete, pending_validation, valid, expired, profile_status_eq, FileType,
  id_photo, insurance_certificate, file_type_eq, Promotion, promotion_eq,
}
use campus_internship.Shared.Calendar.{Date}
use campus_internship.Shared.SchoolYear.{SchoolYear, get_current_school_year, get_school_year_end}
use campus_internship.Api.Schema.{Uuid, FileObject, StudentProfile, Db}
use campus_internship.Api.Prisma.{Client}

-- `currentFileFilter`, at the time of the query
unfoldable pub is_current : Date → FileObject → Bool
is_current now file = elim file.expires_at [ none ↦ true | some expiry ↦ ltb now expiry ]

-- the `expiresAt` of an upload
unfoldable pub expiry_of : FileType → Date → Option Date
expiry_of insurance_certificate now = get_school_year_end (get_current_school_year now)
expiry_of id_photo now = none

-- `hasFileOfType`
unfoldable pub has_file_of_type : List FileObject → FileType → Bool
has_file_of_type files t = any (λ (f : FileObject). file_type_eq f.file_type t) files

-- the loop of `currentFiles`: the first file of each type, `seen` the types that came before
unfoldable pub keep_first : List FileType → List FileObject → List FileObject
keep_first seen [] = []
keep_first seen (f ∷ fs) =
    let kept = keep_first (f.file_type ∷ seen) fs in
    let skipped = keep_first seen fs in
    if any (λ t. file_type_eq t f.file_type) seen then skipped else f ∷ kept

module _ (c : Client) where
  -- `currentFiles`
  unfoldable pub current_files : Date → Uuid → Db → List FileObject
  unfolding keep_first is_current
  current_files now profile_id db = keep_first [] (
      c.order_by FileObject (λ f g. leb g.uploaded_at f.uploaded_at)
        (c.find_many FileObject (λ f. (f.student_profile_id == profile_id) && is_current now f)
          db.files))

abbrev is_some : Option Promotion → Bool
is_some none = false
is_some (some p) = true

abbrev pub same_promotion : Option Promotion → Option Promotion → Bool
same_promotion none none = true
same_promotion (some p) (some q) = promotion_eq p q
same_promotion _ _ = false

-- `nextStatus`
unfoldable pub next_status :
    ProfileStatus → Option Promotion → Bool → Bool → Bool → Bool → ProfileStatus
next_status status promotion has_id_photo has_certificate promotion_changed certificate_reuploaded =
    if profile_status_eq status incomplete || profile_status_eq status expired
    then (if is_some promotion && has_id_photo && has_certificate
        then pending_validation
        else status)
    else if profile_status_eq status valid && (promotion_changed || certificate_reuploaded)
    then pending_validation
    else status

-- what just happened
pub data Event : Type 0 where
  profile_update : Option Promotion → Event
  file_upload : FileType → Event

abbrev promotion_changed_by : Event → Option Promotion → Bool
promotion_changed_by (profile_update new) old = not (same_promotion new old)
promotion_changed_by (file_upload t) old = false

abbrev certificate_reuploaded_by : Event → Bool
certificate_reuploaded_by (profile_update new) = false
certificate_reuploaded_by (file_upload t) = file_type_eq t insurance_certificate

abbrev promotion_after : Event → Option Promotion → Option Promotion
promotion_after (profile_update new) old = new
promotion_after (file_upload t) old = old

-- the status that `applyStatusTransition` computes
unfoldable pub status_after : StudentProfile → List FileObject → Event → ProfileStatus
status_after profile files event =
    next_status profile.profile_status (promotion_after event profile.promotion)
      (has_file_of_type files id_photo) (has_file_of_type files insurance_certificate)
      (promotion_changed_by event profile.promotion) (certificate_reuploaded_by event)

-- what `applyStatusTransition` adds to the data of the update
pub data Patch : Type 0 where
  unchanged : Patch
  moved : ProfileStatus → Patch
  resubmitted : SchoolYear → Patch

-- what a move of the status puts into the data
unfoldable pub patch_of : Date → ProfileStatus → ProfileStatus → Patch
patch_of now old next =
    if profile_status_eq next old
    then unchanged
    else if (profile_status_eq old incomplete || profile_status_eq old expired)
        && profile_status_eq next pending_validation
    then resubmitted (get_current_school_year now)
    else moved next

-- `applyStatusTransition`
unfoldable pub apply_status_transition : Date → StudentProfile → List FileObject → Event → Patch
apply_status_transition now profile files event =
    patch_of now profile.profile_status (status_after profile files event)

unfoldable pub patched : Patch → StudentProfile → StudentProfile
patched unchanged p = p
patched (moved next) p = record p { profile_status = next }
patched (resubmitted year) p = record p {
  profile_status = pending_validation;
  profile_year = some year;
  refusal_reason = none;
}
