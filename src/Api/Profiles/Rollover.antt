-- ===== src/Api/Profiles/Rollover.antt =====
-- modules/auth/auth.service.ts: `applyYearlyRollover`, at each login.
pub mod Laws
use campus_internship.Prelude.{
  ℕ, ◌==◌, ◌≡◌, ◌≢◌, refl, Bool, true, false, Option, none, some, Text, text_eq, if◌then◌else◌,
  arith,
}
use campus_internship.Shared.Enums.{ProfileStatus, incomplete, pending_validation, valid, expired}
use campus_internship.Shared.Calendar.{Date}
use campus_internship.Shared.SchoolYear.{SchoolYear, get_current_school_year}
use campus_internship.Api.Schema.{StudentProfile}
use campus_internship.Api.World.{Env, M, ◌>>=◌, ◌>>◌, pure}
use campus_internship.Api.Prisma.{Client}
use campus_internship.Api.Profiles.Student.{update_row}

-- `YEARLY_ROLLOVER_MAP`
abbrev pub yearly_rollover_map : ProfileStatus → Option ProfileStatus
yearly_rollover_map valid = some expired
yearly_rollover_map pending_validation = some incomplete
yearly_rollover_map _ = none

abbrev pub is_year : Option SchoolYear → SchoolYear → Bool
is_year none year = false
is_year (some y) year = text_eq y year

-- the new status of a profile, `none` where nothing is written
unfoldable pub rolled_over : Date → StudentProfile → Option ProfileStatus
rolled_over now p =
    if is_year p.profile_year (get_current_school_year now)
    then none
    else yearly_rollover_map p.profile_status

module _ (c : Client) (env : Env) where
  -- the two early returns, then the write
  unfoldable pub apply_rollover : StudentProfile → Option ProfileStatus → M ProfileStatus
  apply_rollover profile none = pure profile.profile_status
  apply_rollover profile (some status) = do
    update_row c env profile.id (λ p. record p { profile_status = status })
    pure status

  -- `applyYearlyRollover`
  unfoldable pub apply_yearly_rollover : Option StudentProfile → M (Option ProfileStatus)
  unfolding rolled_over
  apply_yearly_rollover none = pure none
  apply_yearly_rollover (some profile) = do
    status ← apply_rollover profile (rolled_over env.now profile)
    pure (some status)
