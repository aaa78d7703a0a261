-- ===== src/Api/Profiles/Student.antt =====
-- modules/students/students.service.ts: `getProfile`, `updateProfile` and `uploadFile`.
pub mod Moves
use campus_internship.Prelude.{
  ℕ, ◌==◌, Bool, true, false, not, Option, none, some, List, [], ◌∷◌, map, Text, if◌then◌else◌,
}
use campus_internship.Shared.Enums.{ProfileStatus, FileType, Promotion}
use campus_internship.Shared.SchoolYear.{SchoolYear}
use campus_internship.Api.Http.{
  Error, Result, ok, err, not_found, prisma, PrismaCode, p2025, js_error,
}
use campus_internship.Api.Schema.{Uuid, FileObject, StudentProfile, Db}
use campus_internship.Api.World.{
  Env, M, World, ◌>>=◌, ◌>>◌, pure, query, write, try_write, or_throw, require, map_result,
}
use campus_internship.Api.Prisma.{Client}
use campus_internship.Api.Stages.Create.{profile_not_found}
use campus_internship.Api.Profiles.Status.{
  current_files, expiry_of, Event, profile_update, file_upload, Patch, unchanged, moved,
  resubmitted, apply_status_transition, patched,
}

-- `UpdateProfileDto`: an absent field is `none`
pub record ProfileUpdate : Type 0 where
  pub promotion : Option Promotion
  pub phone : Option (Option Text)
  pub personal_email : Option (Option Text)

pub record FileResponse : Type 0 where
  pub file_type : FileType
  pub mime_type : Text
  pub uploaded_at : Text

-- `StudentProfileResponse`
pub record ProfileResponse : Type 0 where
  pub promotion : Option Promotion
  pub phone : Option Text
  pub personal_email : Option Text
  pub profile_status : ProfileStatus
  pub profile_year : Option SchoolYear
  pub refusal_reason : Option Text
  pub files : List FileResponse

-- what Multer hands over, the key in the object storage and whether the storage takes the file
pub record Upload : Type 0 where
  pub id : Uuid
  pub bucket_key : Uuid → FileType → Text
  pub mime_type : Text
  pub size : ℕ
  pub stored : Bool

abbrev pub or_else {ℓ} : {A : Type ℓ} → Option A → A → A
or_else none a = a
or_else (some b) a = b

-- `{ ...dto.promotion }`: the promotion after the update
abbrev pub new_promotion : ProfileUpdate → StudentProfile → Option Promotion
new_promotion dto p = elim dto.promotion [ none ↦ p.promotion | some q ↦ some q ]

-- the fields of the update that the student sent
abbrev pub with_fields : ProfileUpdate → StudentProfile → StudentProfile
with_fields dto p = record p {
  promotion = new_promotion dto p;
  phone = or_else dto.phone p.phone;
  personal_email = or_else dto.personal_email p.personal_email;
}

-- `toResponse`
unfoldable pub to_profile_response : Env → StudentProfile → List FileObject → ProfileResponse
to_profile_response env p files = record {
  promotion = p.promotion;
  phone = p.phone;
  personal_email = p.personal_email;
  profile_status = p.profile_status;
  profile_year = p.profile_year;
  refusal_reason = p.refusal_reason;
  files =
      map
        (λ (f : FileObject). record {
          file_type = f.file_type;
          mime_type = f.mime_type;
          uploaded_at = env.to_iso_string f.uploaded_at;
        })
        files;
}

abbrev pub is_unchanged : Patch → Bool
is_unchanged unchanged = true
is_unchanged _ = false

-- the row that an upload creates
abbrev pub file_row : Env → Upload → FileType → StudentProfile → FileObject
file_row env file t p = record {
  id = file.id;
  file_type = t;
  bucket_key = file.bucket_key p.id t;
  mime_type = file.mime_type;
  size_bytes = file.size;
  expires_at = expiry_of t env.now;
  uploaded_at = env.now;
  student_profile_id = p.id;
}

module _ (c : Client) (env : Env) where
  -- `findProfileOrThrow`
  unfoldable pub find_profile_or_throw : Uuid → M StudentProfile
  find_profile_or_throw user_id = do
    found ← query (λ db. c.find_first StudentProfile (λ p. p.user_id == user_id) db.profiles)
    or_throw found profile_not_found

  -- the statement of an update
  unfoldable pub update_profiles : (StudentProfile → Bool) → (StudentProfile → StudentProfile) → M ℕ
  update_profiles test data_of = write (λ db.
      let (n, rows) = c.update_many StudentProfile test data_of db.profiles in
      (n, record db { profiles = rows }))

  -- `fileObject.create`
  unfoldable pub insert_file : FileObject → M (Unit {0})
  insert_file f =
      try_write
        (λ db. map_result (λ rows. record db { files = rows }) (c.create FileObject f db.files))

  -- `studentProfile.update`, with `@updatedAt`; a missing row is P2025
  unfoldable pub update_row : Uuid → (StudentProfile → StudentProfile) → M StudentProfile
  update_row id data_of = do
    count ← update_profiles (λ p. p.id == id) (λ p. record (data_of p) { updated_at = env.now })
    require (not (count == 0)) (prisma p2025)
    found ← query (λ db. c.find_first StudentProfile (λ p. p.id == id) db.profiles)
    or_throw found (prisma p2025)

  -- `getProfile`
  unfoldable pub get_profile : Uuid → M ProfileResponse
  get_profile user_id = do
    profile ← find_profile_or_throw user_id
    files ← query (current_files c env.now profile.id)
    pure (to_profile_response env profile files)

  -- `updateProfile`
  unfoldable pub update_profile : Uuid → ProfileUpdate → M ProfileResponse
  update_profile user_id dto = do
    profile ← find_profile_or_throw user_id
    files ← query (current_files c env.now profile.id)
    let patch =
        apply_status_transition env.now profile files (profile_update (new_promotion dto profile))
    updated ← update_row profile.id (λ p. patched patch (with_fields dto p))
    pure (to_profile_response env updated files)

  -- `uploadFile`
  unfoldable pub upload_file : Uuid → FileType → Upload → M ProfileResponse
  upload_file user_id t file = do
    profile ← find_profile_or_throw user_id
    require file.stored (js_error "S3ServiceException")
    insert_file (file_row env file t profile)
    files ← query (current_files c env.now profile.id)
    let patch = apply_status_transition env.now profile files (file_upload t)
    updated ← (if is_unchanged patch then pure profile else update_row profile.id (patched patch))
    pure (to_profile_response env updated files)
