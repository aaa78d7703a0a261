-- ===== src/Api/Profiles/Queue.antt =====
-- modules/admin/admin-students-queue.service.ts, and `getCertificateStream` of
-- modules/admin/admin-students.service.ts up to the download, which is the object storage's.
use campus_internship.Prelude.{
  ◌==◌, Bool, ◌&&◌, Option, none, some, List, [], ◌∷◌, leb, Text, if◌then◌else◌,
}
use mathlib.Core.Option
use campus_internship.Shared.Enums.{
  Promotion, pending_validation, profile_status_eq, insurance_certificate, file_type_eq,
}
use campus_internship.Api.Http.{not_found, js_error}
use campus_internship.Api.Schema.{Uuid, FileObject, StudentProfile, User, Db}
use campus_internship.Api.World.{Env, M, ◌>>=◌, pure, query, or_throw}
use campus_internship.Api.Prisma.{Client}
use campus_internship.Api.Profiles.Status.{is_current}

-- `CertificateQueueEntry`
pub record CertificateQueueEntry : Type 0 where
  pub student_id : Uuid
  pub first_name : Text
  pub last_name : Text
  pub promotion : Option Promotion
  pub waiting_since : Text
  pub certificate : Option Text

-- what a download needs of a file
pub record CertificateFile : Type 0 where
  pub bucket_key : Text
  pub mime_type : Text

-- `[{ updatedAt: "asc" }, { id: "asc" }]`: not after
abbrev pub longest_waiting_first : StudentProfile → StudentProfile → Bool
longest_waiting_first p q =
    if p.updated_at == q.updated_at then leb p.id q.id else leb p.updated_at q.updated_at

abbrev first_file : List FileObject → Option FileObject
first_file [] = none
first_file (f ∷ fs) = some f

module _ (c : Client) (env : Env) where
  -- the most recent current certificate
  unfoldable pub current_certificate : Uuid → Db → Option FileObject
  current_certificate student_id db = first_file (
      c.order_by FileObject (λ f g. leb g.uploaded_at f.uploaded_at)
        (c.find_many FileObject
          (λ f.
            (f.student_profile_id == student_id)
            && file_type_eq f.file_type insurance_certificate
            && is_current env.now f)
          db.files))

  -- the callback of `profiles.map`
  unfoldable pub to_queue_entry : Db → StudentProfile → M CertificateQueueEntry
  to_queue_entry db profile = do
    user ←
        or_throw (c.find_first User (λ u. u.id == profile.user_id) db.users)
          (js_error "user is null")
    pure (record {
      student_id = profile.id;
      first_name = user.first_name;
      last_name = user.last_name;
      promotion = profile.promotion;
      waiting_since = env.to_iso_string profile.updated_at;
      certificate =
          Option.map (λ (f : FileObject). env.to_iso_string f.uploaded_at)
            (current_certificate profile.id db);
    })

  unfoldable pub to_queue_entries : Db → List StudentProfile → M (List CertificateQueueEntry)
  to_queue_entries db [] = pure []
  to_queue_entries db (p ∷ ps) = do
    entry ← to_queue_entry db p
    entries ← to_queue_entries db ps
    pure (entry ∷ entries)

  -- `list`, whose reads are one snapshot
  unfoldable pub list_certificates : M (List CertificateQueueEntry)
  list_certificates = do
    db ← c.transaction Db (query (λ db. db))
    to_queue_entries db (
        c.order_by StudentProfile longest_waiting_first (
          c.find_many StudentProfile (λ p. profile_status_eq p.profile_status pending_validation)
            db.profiles))

  -- `getCertificateStream`
  unfoldable pub get_certificate : Uuid → M CertificateFile
  get_certificate student_id = do
    found ← query (current_certificate student_id)
    file ← or_throw found (
        not_found "Aucune attestation de responsabilité civile scolaire actuelle pour cet étudiant")
    pure (record { bucket_key = file.bucket_key; mime_type = file.mime_type })
