-- ===== src/Api/Profiles/Admin/Branches.antt =====
-- The course that a validation and a rejection of a profile share, and its conditional update.
use campus_internship.Prelude.{
  ◌≡◌, ◌==◌, refl, ap, ◌∙◌, String, true, false, none, some, arith, Text,
}
use campus_internship.Api.Http.{ok, err, conflict}
use campus_internship.Api.Schema.{Uuid, StudentProfile, User, Db}
use campus_internship.Api.World.{World, Env, M, ◌>>=◌, pure}
use campus_internship.Api.World.ReadOnly.{ReadOnly, ReadOnly-pure, bind-ok, bind-ReadOnly}
use campus_internship.Api.Prisma.{Client, IsClient, find?, update_where}
use campus_internship.Api.Prisma.Tables.{
  Keyed, find?_test, select-found, select-missed, find?-update_where,
}
use campus_internship.Api.Stages.Reading.{Quiet, send_safely-Quiet, send_safely-ReadOnly}
use campus_internship.Api.Profiles.Admin.{
  Action, impossible, is_source_of, is_movable, TransitionResponse, throw_for_failed_transition,
  transition, get_notification_target, notify_student,
}

-- the world after the conditional update
abbrev pub moved_profile : Action → (StudentProfile → StudentProfile) → Uuid → World → World
moved_profile action data_of id w = record w {
  db = record w.db { profiles = update_where (is_movable action id) data_of w.db.profiles };
}

notify_student-ReadOnly :
    (c : Client) (env : Env) (target : StudentProfile × User) (subject : String) (body : Text)
    → ReadOnly (notify_student c env target subject body)
unfolding notify_student
notify_student-ReadOnly c env (profile, user) subject body = send_safely-ReadOnly env _

notify_student-Quiet :
    (c : Client) (env : Env) (target : StudentProfile × User) (subject : String) (body : Text)
    → Quiet (notify_student c env target subject body)
unfolding notify_student
notify_student-Quiet c env (profile, user) subject body w = send_safely-Quiet env _ w

module _ (c : Client) (law : IsClient c) (env : Env) (id : Uuid) (w : World) (p : StudentProfile)
    (found : find? (λ x. x.id == id) w.db.profiles ≡ some p) where
  module _ (action : Action) (data_of : StudentProfile → StudentProfile) where
    transition_ok :
        is_source_of action p.profile_status ≡ true
        → transition c env id action data_of w ≡ (ok tt, moved_profile action data_of id w)
    unfolding transition ◌>>=◌
    transition_ok source =
        let is_id : (p.id == id) ≡ true = find?_test (λ x. x.id == id) w.db.profiles p found in
        let one =
          select-found _ (is_movable action id) w.db.profiles p found (rw (is_id, source) refl) in
        rw (law.update_many_lem StudentProfile (is_movable action id) data_of w.db.profiles, one)

    pub transition_failed :
        Keyed (λ x. x.id) w.db.profiles
        → is_source_of action p.profile_status ≡ false
        → transition c env id action data_of w
          ≡ (err (conflict none (impossible action p.profile_status)), w)
    unfolding transition throw_for_failed_transition ◌>>=◌
    transition_failed keyed source =
        let (nothing, same) =
          select-missed (λ x. x.id) (is_movable action id) data_of id (λ x t. ground arith)
            w.db.profiles p keyed found (ground arith) in
        rw (
          law.update_many_lem StudentProfile (is_movable action id) data_of w.db.profiles,
          nothing,
          same,
          law.find_first_lem StudentProfile (λ x. x.id == id) w.db.profiles,
          found,
        )

    module _ (keeps : (x : StudentProfile) → (data_of x).id ≡ x.id)
        (keeps_user : (x : StudentProfile) → (data_of x).user_id ≡ x.user_id)
        (source : is_source_of action p.profile_status ≡ true) (u : User)
        (owner : find? (λ x. x.id == p.user_id) w.db.users ≡ some u) (subject : String)
        (body : StudentProfile × User → Text) (answer : TransitionResponse) where
      -- the course that the two transitions share
      abbrev pub course : M TransitionResponse
      course = transition c env id action data_of >>= λ t.
          (get_notification_target c env id >>= λ target.
          (notify_student c env target subject (body target) >>= λ s. pure answer))

      moved_row :
          find? (λ x. x.id == id) (moved_profile action data_of id w).db.profiles ≡ some (data_of p)
      moved_row =
          let is_id : (p.id == id) ≡ true = find?_test (λ x. x.id == id) w.db.profiles p found in
          find?-update_where (λ x. x.id) (is_movable action id) data_of id (λ x t. ground arith)
            keeps w.db.profiles p found (rw (is_id, source) refl)

      target_ok :
          let v = moved_profile action data_of id w in
          get_notification_target c env id v ≡ (ok (data_of p, u), v)
      unfolding get_notification_target ◌>>=◌
      target_ok =
          let v = moved_profile action data_of id w in
          rw (
            law.find_first_lem StudentProfile (λ x. x.id == id) v.db.profiles,
            moved_row,
            keeps_user p,
            law.find_first_lem User (λ x. x.id == p.user_id) w.db.users,
            owner,
          )

      pure_answer : (v : World) → (pure answer v).0 ≡ ok answer
      unfolding ◌>>=◌
      pure_answer v = refl

      pub course_ok :
          ((course w).0 ≡ ok answer)
          × ((course w).1.db ≡ (moved_profile action data_of id w).db)
          × (find? (λ x. x.id == id) (course w).1.db.profiles ≡ some (data_of p))
      course_ok =
          let v = moved_profile action data_of id w in
          let target : StudentProfile × User = (data_of p, u) in
          let (answered, kept) =
            bind-ReadOnly (notify_student c env target subject (body target)) (λ s. pure answer) tt
              v (notify_student-ReadOnly c env target subject (body target)) (ReadOnly-pure answer)
              (notify_student-Quiet c env target subject (body target) v) in
          let whole : course w
              ≡ (notify_student c env target subject (body target) >>= λ s. pure answer) v =
            bind-ok _ _ tt w v (transition_ok source) ∙ bind-ok _ _ target v v target_ok in
          let wrote = ap (λ x. x.1.db) whole ∙ kept in
          (
            ap (λ x. x.0) whole ∙ answered ∙ pure_answer v,
            wrote,
            ap (λ (db : Db). find? (λ x. x.id == id) db.profiles) wrote ∙ moved_row,
          )
