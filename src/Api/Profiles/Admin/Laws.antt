-- ===== src/Api/Profiles/Admin/Laws.antt =====
-- What an admin's validation or rejection of a profile does.
use campus_internship.Prelude.{◌≡◌, ◌≢◌, ◌==◌, none, some, arith, Text}
use campus_internship.Shared.Enums.{pending_validation, valid}
use campus_internship.Api.Http.{err, conflict}
use campus_internship.Api.Schema.{Uuid, StudentProfile}
use campus_internship.Api.World.{World, Env}
use campus_internship.Api.World.ReadOnly.{bind-err}
use campus_internship.Api.Prisma.{Client, IsClient, find?}
use campus_internship.Api.Prisma.Tables.{Keyed}
use campus_internship.Api.Mailer.{ActingAdmin}
use campus_internship.Api.Profiles.Admin.{
  validate, reject, impossible, validated_profile, rejected_profile, validate_profile,
  reject_profile,
}
use campus_internship.Api.Profiles.Admin.Branches.{transition_failed}

module _ (c : Client) (law : IsClient c) (env : Env) (id : Uuid) (admin : ActingAdmin) (w : World)
    (p : StudentProfile)
    (found : find? (λ (x : StudentProfile). x.id == id) w.db.profiles ≡ some p) where
  -- Where the ids of the profiles differ, a profile that is not pending is not validated: the answer
  -- is a conflict that names its status, and nothing changes.
  pub validate_profile_refused :
      Keyed (λ (x : StudentProfile). x.id) w.db.profiles
      → p.profile_status ≢ pending_validation
      → validate_profile c env id admin w
        ≡ (err (conflict none (impossible validate p.profile_status)), w)
  unfolding validate_profile
  validate_profile_refused keyed st = bind-err _ _ _ w w (
      transition_failed c law env id w p found validate (validated_profile env) keyed
        (ground arith))

  -- Where the ids of the profiles differ, a profile that is neither pending nor valid is not
  -- rejected: the answer is a conflict that names its status, and nothing changes.
  pub reject_profile_refused :
      (reason : Text)
      → Keyed (λ (x : StudentProfile). x.id) w.db.profiles
      → p.profile_status ≢ pending_validation
      → p.profile_status ≢ valid
      → reject_profile c env id reason admin w
        ≡ (err (conflict none (impossible reject p.profile_status)), w)
  unfolding reject_profile
  reject_profile_refused reason keyed st st' = bind-err _ _ _ w w (
      transition_failed c law env id w p found reject (rejected_profile env reason) keyed
        (ground arith))
