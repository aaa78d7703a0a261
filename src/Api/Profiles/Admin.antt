-- ===== src/Api/Profiles/Admin.antt =====
-- modules/admin/admin-students.service.ts: an admin validates or rejects a profile.
pub mod Branches
pub mod Laws
use campus_internship.Prelude.{
  ℕ, ◌==◌, String, Bool, true, false, not, ◌&&◌, ◌||◌, Option, none, some, List, [], ◌∷◌, ◌++◌,
  Text, text,
}
use campus_internship.Shared.Enums.{
  ProfileStatus, incomplete, pending_validation, valid, expired, profile_status_eq,
  insurance_certificate, file_type_eq,
}
use campus_internship.Api.Http.{Error, conflict, not_found, prisma, p2025}
use campus_internship.Api.Schema.{Uuid, FileObject, StudentProfile, User, Db}
use campus_internship.Api.World.{Env, M, World, ◌>>=◌, ◌>>◌, pure, throw, query, write, or_throw}
use campus_internship.Api.Prisma.{Client}
use campus_internship.Api.Mailer.{
  ActingAdmin, admin_title, admin_display_name, compose_student_email, normalize_cc, personal_cc,
  send_safely,
}
use campus_internship.Api.Stages.Create.{profile_not_found}
use campus_internship.Prelude.{leb, if◌then◌else◌}
use campus_internship.Api.Profiles.Status.{is_current}

-- the verb in the message of a failed transition
pub data Action : Type 0 where
  validate reject : Action

-- `Impossible de ${action} un profil au statut ${profile.profileStatus}`
abbrev pub impossible : Action → ProfileStatus → String
impossible validate incomplete = "Impossible de valider un profil au statut INCOMPLETE"
impossible validate pending_validation =
    "Impossible de valider un profil au statut PENDING_VALIDATION"
impossible validate valid = "Impossible de valider un profil au statut VALID"
impossible validate expired = "Impossible de valider un profil au statut EXPIRED"
impossible reject incomplete = "Impossible de rejeter un profil au statut INCOMPLETE"
impossible reject pending_validation =
    "Impossible de rejeter un profil au statut PENDING_VALIDATION"
impossible reject valid = "Impossible de rejeter un profil au statut VALID"
impossible reject expired = "Impossible de rejeter un profil au statut EXPIRED"

-- `VALIDATABLE_STATUSES` and `REJECTABLE_STATUSES`
abbrev pub is_source_of : Action → ProfileStatus → Bool
is_source_of validate status = profile_status_eq status pending_validation
is_source_of reject status =
    profile_status_eq status pending_validation || profile_status_eq status valid

abbrev pub is_movable : Action → Uuid → StudentProfile → Bool
is_movable action id p = (p.id == id) && is_source_of action p.profile_status

-- the data of the two updates; the database client sets `updatedAt`
abbrev pub validated_profile : Env → StudentProfile → StudentProfile
validated_profile env p = record p {
  profile_status = valid;
  refusal_reason = none;
  updated_at = env.now;
}

abbrev pub rejected_profile : Env → Text → StudentProfile → StudentProfile
rejected_profile env reason p = record p {
  profile_status = incomplete;
  refusal_reason = some reason;
  updated_at = env.now;
}

-- `AdminProfileTransitionResponse`
pub record TransitionResponse : Type 0 where
  pub student_id : Uuid
  pub profile_status : ProfileStatus

module _ (c : Client) (env : Env) where
  -- `throwForFailedTransition`
  unfoldable pub throw_for_failed_transition : Uuid → Action → M (Unit {0})
  throw_for_failed_transition student_id action = do
    found ← query (λ db. c.find_first StudentProfile (λ p. p.id == student_id) db.profiles)
    profile ← or_throw found profile_not_found
    throw (conflict none (impossible action profile.profile_status))

  -- the conditional update, and the error where it moved no row
  unfoldable pub transition : Uuid → Action → (StudentProfile → StudentProfile) → M (Unit {0})
  transition student_id action data_of = do
    count ← write (λ db.
        let (n, rows) =
          c.update_many StudentProfile (is_movable action student_id) data_of db.profiles in
        (n, record db { profiles = rows }))
    if count == 0 then throw_for_failed_transition student_id action else pure tt

  -- `getNotificationTarget`
  unfoldable pub get_notification_target : Uuid → M (StudentProfile × User)
  get_notification_target student_id = do
    db ← query (λ db. db)
    profile ←
        or_throw (c.find_first StudentProfile (λ p. p.id == student_id) db.profiles) (prisma p2025)
    user ← or_throw (c.find_first User (λ u. u.id == profile.user_id) db.users) (prisma p2025)
    pure (profile, user)

  -- `notifyStudent`
  unfoldable pub notify_student : StudentProfile × User → String → Text → M (Unit {0})
  notify_student (profile, user) subject body = send_safely env (record {
    to = user.email;
    cc = normalize_cc (personal_cc profile.personal_email);
    subject = subject;
    body = body;
  })

  pub validation_text : Text → Text
  validation_text admin_name =
      text
        "Votre attestation d'assurance de responsabilité civile avec mention stage a été vérifiée et votre profil de stage est validé par "
      ++ (admin_name ++ (text ", " ++ (admin_title ++ text ".")))

  pub rejection_text : Text → Text → Text
  rejection_text admin_name reason =
      text "Votre profil de stage a été examiné par "
      ++ (admin_name
          ++ (text ", "
              ++ (admin_title
                  ++ (text ", et n'a pas pu être validé, pour le motif suivant :"
                      ++ (10 ∷ 10 ∷ reason)))))

  -- `validateProfile`
  unfoldable pub validate_profile : Uuid → ActingAdmin → M TransitionResponse
  unfolding validation_text
  validate_profile student_id admin = do
    transition student_id validate (validated_profile env)
    target ← get_notification_target student_id
    let admin_name = admin_display_name env admin
    notify_student target "Votre profil a été validé" (
        compose_student_email (target.1).first_name admin_name (
          validation_text admin_name
          ∷ text "Vous pouvez le consulter à tout moment depuis votre espace étudiant."
          ∷ []))
    pure (record { student_id = student_id; profile_status = valid })

  -- `rejectProfile`
  unfoldable pub reject_profile : Uuid → Text → ActingAdmin → M TransitionResponse
  unfolding rejection_text
  reject_profile student_id reason admin = do
    transition student_id reject (rejected_profile env reason)
    target ← get_notification_target student_id
    let admin_name = admin_display_name env admin
    notify_student target "Votre profil a été refusé" (
        compose_student_email (target.1).first_name admin_name (
          rejection_text admin_name reason
          ∷ text
              "Merci de mettre à jour votre profil et de soumettre à nouveau votre attestation de responsabilité civile scolaire avec mention stage depuis votre espace étudiant."
          ∷ []))
    pure (record { student_id = student_id; profile_status = incomplete })
