-- ===== src/Api/Stages/Reading.antt =====
-- The parts of the handlers that read the database and never write it: the lookups, the gate and
-- the notifications.
use campus_internship.Prelude.{String, ◌≡◌, Option, none, some, List, [], ◌∷◌, arith, Text}
use campus_internship.Api.Http.{ok}
use campus_internship.Api.Schema.{Uuid, Stage, StudentProfile, User}
use campus_internship.Api.World.{World, Env, Email, M, ◌>>=◌, pure}
use campus_internship.Api.World.ReadOnly.{
  ReadOnly, ReadOnly-bind, ReadOnly-option, ReadOnly-pure, read_only_rules,
}
use campus_internship.Api.Prisma.{Client}
use campus_internship.Api.Mailer.{ActingAdmin, send_safely}
use campus_internship.Api.Snapshot.{parse_stage_snapshot}
use campus_internship.Api.Stages.Read.{try_read_snapshot, read_snapshot, get_by_id}
use campus_internship.Api.Stages.Submit.{
  submit_read, notify_each, notify_all, notify_admins_of_submission,
}
use campus_internship.Api.Stages.Decide.{
  DecidingAdmin, find_pending_stage_or_throw, find_assigned_referent_or_throw, prepare_decision,
  notify_student_of_refusal, notify_student_of_validation,
}

pub send_safely-ReadOnly : (env : Env) (email : Email) → ReadOnly (send_safely env email)
unfolding send_safely ◌>>=◌
send_safely-ReadOnly env email = record {
  keeps = λ w. ground arith;
  depends = λ w w' e. ground arith;
}

-- the notifications throw nothing
abbrev pub Quiet : M (Unit {0}) → Type 0
Quiet m = (w : World) → (m w).0 ≡ ok tt

pub send_safely-Quiet : (env : Env) (email : Email) → Quiet (send_safely env email)
unfolding send_safely ◌>>=◌
send_safely-Quiet env email w = ground arith

module _ (c : Client) (env : Env) where
  try_read_snapshot-ReadOnly : (s : Stage) → ReadOnly (try_read_snapshot c env s)
  unfolding try_read_snapshot
  try_read_snapshot-ReadOnly s =
      ReadOnly-option (parse_stage_snapshot env.is_datetime s.snapshot s.snapshot_version) _
        (λ v. pure (some v)) (search (read_only_rules)) (λ v. ReadOnly-pure (some v))

  pub get_by_id-ReadOnly : (user_id stage_id : Uuid) → ReadOnly (get_by_id c env user_id stage_id)
  unfolding get_by_id read_snapshot
  get_by_id-ReadOnly user_id stage_id =
      search (read_only_rules, try_read_snapshot-ReadOnly) depth 12

  pub submit_read-ReadOnly :
      (user_id stage_id : Uuid) → ReadOnly (submit_read c env user_id stage_id)
  unfolding submit_read
  submit_read-ReadOnly user_id stage_id = search (read_only_rules) depth 14

  notify_each-ReadOnly :
      (body : Text) (admins : List User) → ReadOnly (notify_each c env body admins)
  unfolding notify_each
  notify_each-ReadOnly body [] = search (read_only_rules)
  notify_each-ReadOnly body (a ∷ rest) =
      ReadOnly-bind _ _ (send_safely-ReadOnly env _) (λ u. notify_each-ReadOnly body rest)

  notify_all-ReadOnly :
      (body : User → Text) (admins : List User) (u : Option User)
      → ReadOnly (notify_all c env body admins u)
  unfolding notify_all
  notify_all-ReadOnly body admins none = search (read_only_rules)
  notify_all-ReadOnly body admins (some u) = notify_each-ReadOnly (body u) admins

  pub notify_admins-ReadOnly : (s : Stage) → ReadOnly (notify_admins_of_submission c env s)
  unfolding notify_admins_of_submission
  notify_admins-ReadOnly s = search (read_only_rules, notify_all-ReadOnly) depth 12

  pub prepare_decision-ReadOnly :
      (id : Uuid) (m n : String) (admin : DecidingAdmin)
      → ReadOnly (prepare_decision c env id m n admin)
  unfolding prepare_decision find_pending_stage_or_throw find_assigned_referent_or_throw
  prepare_decision-ReadOnly id m n admin = search (read_only_rules) depth 40

  pub notify_refusal-ReadOnly :
      (p : StudentProfile) (u : User) (organism_name reason : Text) (admin : ActingAdmin)
      → ReadOnly (notify_student_of_refusal c env p u organism_name reason admin)
  unfolding notify_student_of_refusal
  notify_refusal-ReadOnly p u organism_name reason admin = send_safely-ReadOnly env _

  pub notify_validation-ReadOnly :
      (p : StudentProfile) (u : User) (organism_name : Text) (r : User) (admin : ActingAdmin)
      → ReadOnly (notify_student_of_validation c env p u organism_name r admin)
  unfolding notify_student_of_validation
  notify_validation-ReadOnly p u organism_name r admin = send_safely-ReadOnly env _

  pub notify_refusal-Quiet :
      (p : StudentProfile) (u : User) (organism_name reason : Text) (admin : ActingAdmin)
      → Quiet (notify_student_of_refusal c env p u organism_name reason admin)
  unfolding notify_student_of_refusal
  notify_refusal-Quiet p u organism_name reason admin w = send_safely-Quiet env _ w

  pub notify_validation-Quiet :
      (p : StudentProfile) (u : User) (organism_name : Text) (r : User) (admin : ActingAdmin)
      → Quiet (notify_student_of_validation c env p u organism_name r admin)
  unfolding notify_student_of_validation
  notify_validation-Quiet p u organism_name r admin w = send_safely-Quiet env _ w
