-- ===== src/Api/Stages/Evolution/Operations.antt =====
-- The operations of the students let the stages evolve, whether they return or throw.
use campus_internship.Prelude.{Bool, Option, none, some, List, [], ◌∷◌, ◌++◌, Text}
use campus_internship.Shared.Enums.{Semester}
use campus_internship.Shared.SchoolYear.{SchoolYear}
use campus_internship.Shared.StagePeriod.{Period}
use campus_internship.Api.Http.{PrismaCode}
use campus_internship.Api.Schema.{
  Uuid, Stage, HostOrganism, Tutor, StudentProfile, OrganismInput, TutorInput, User,
}
use campus_internship.Api.World.{Env, M}
use campus_internship.Api.World.Preserves.{
  Preserves, Preserves-bind, Preserves-catch_as, Preserves-option, Preserves-pure, preserves_rules,
}
use campus_internship.Api.Prisma.{Client, reference}
use campus_internship.Api.Stages.Read.{get_by_id, try_read_snapshot, read_snapshot}
use campus_internship.Api.Stages.Resolve.{
  Choice, existing, new, Ids, resolve_organism, resolve_tutor,
}
use campus_internship.Api.Stages.Create.{
  CreateRequest, insert_stage, create_body, create_draft, duplicate,
}
use campus_internship.Api.Stages.Update.{is_draft_at}
use campus_internship.Api.Stages.Submit.{
  submit_read, submit_write, submitted, notify_each, notify_all, notify_admins_of_submission,
  submit,
}
use campus_internship.Api.Snapshot.{parse_stage_snapshot}
use campus_internship.Api.Stages.Evolution.Steps.{submitted-StageStep}
use campus_internship.Api.Stages.Evolution.Rows.{
  Evolves, Evolves-refl, Evolves-append, StagesEvolve, StagesEvolve-preorder,
}
use campus_internship.Api.Stages.Evolution.Writes.{
  update-StagesEvolve, try_write-StagesEvolve, created-OfOk, transaction-StagesEvolve,
  send_safely-StagesEvolve,
}

module _ (order : (A : Type 0) → (A → A → Bool) → List A → List A)
    (refuses : (A : Type 0) → A → List A → Option PrismaCode) (env : Env) (ids : Ids) where
  abbrev c : Client
  c = reference order refuses

  abbrev Ok : {A : Type 0} → M A → Type 0
  Ok m = Preserves StagesEvolve m

  pub submit_write-StagesEvolve : (s : Stage) → Ok (submit_write c env s)
  unfolding submit_write
  submit_write-StagesEvolve s = search (
    preserves_rules,
    StagesEvolve-preorder,
    update-StagesEvolve (is_draft_at s.id s.version) (submitted env)
        (submitted-StageStep env s.id s.version),
  )

  submit_read-StagesEvolve : (user_id stage_id : Uuid) → Ok (submit_read c env user_id stage_id)
  unfolding submit_read
  submit_read-StagesEvolve user_id stage_id =
      search (preserves_rules, StagesEvolve-preorder) depth 12

  try_read_snapshot-StagesEvolve : (s : Stage) → Ok (try_read_snapshot c env s)
  unfolding try_read_snapshot
  try_read_snapshot-StagesEvolve s =
      Preserves-option (parse_stage_snapshot env.is_datetime s.snapshot s.snapshot_version) _ _
        (search (preserves_rules, StagesEvolve-preorder))
        (λ snapshot. Preserves-pure StagesEvolve-preorder (some snapshot))

  pub get_by_id-StagesEvolve : (user_id stage_id : Uuid) → Ok (get_by_id c env user_id stage_id)
  unfolding get_by_id read_snapshot
  get_by_id-StagesEvolve user_id stage_id =
      search (preserves_rules, StagesEvolve-preorder, try_read_snapshot-StagesEvolve) depth 12

  notify_each-StagesEvolve : (body : Text) (admins : List User) → Ok (notify_each c env body admins)
  unfolding notify_each
  notify_each-StagesEvolve body [] = search (preserves_rules, StagesEvolve-preorder)
  notify_each-StagesEvolve body (a ∷ rest) =
      Preserves-bind StagesEvolve-preorder _ _ (send_safely-StagesEvolve order refuses env _)
        (λ _. notify_each-StagesEvolve body rest)

  notify_all-StagesEvolve :
      (body : User → Text) (admins : List User) (u : Option User)
      → Ok (notify_all c env body admins u)
  unfolding notify_all
  notify_all-StagesEvolve body admins none = search (preserves_rules, StagesEvolve-preorder)
  notify_all-StagesEvolve body admins (some u) = notify_each-StagesEvolve (body u) admins

  notify_admins-StagesEvolve : (s : Stage) → Ok (notify_admins_of_submission c env s)
  unfolding notify_admins_of_submission
  notify_admins-StagesEvolve s =
      search (preserves_rules, StagesEvolve-preorder, notify_all-StagesEvolve) depth 8

  -- `submit`
  pub submit-StagesEvolve : (user_id stage_id : Uuid) → Ok (submit c env user_id stage_id)
  unfolding submit
  submit-StagesEvolve user_id stage_id = search (
    preserves_rules, StagesEvolve-preorder, submit_read-StagesEvolve, submit_write-StagesEvolve,
    notify_admins-StagesEvolve, get_by_id-StagesEvolve,
  )

  insert_stage-StagesEvolve : (s : Stage) (ps : List Period) → Ok (insert_stage c env ids s ps)
  unfolding insert_stage
  insert_stage-StagesEvolve s ps = try_write-StagesEvolve _ λ db.
      created-OfOk (λ db'. Evolves db.stages db'.stages) (refuses Stage s db.stages)
        (db.stages ++ s ∷ []) _ (Evolves-append db.stages (s ∷ []))

  pub resolve_organism-StagesEvolve : (o : Choice OrganismInput) → Ok (resolve_organism c ids o)
  unfolding resolve_organism
  resolve_organism-StagesEvolve (existing id) = search (preserves_rules, StagesEvolve-preorder)
  resolve_organism-StagesEvolve (new input) = Preserves-catch_as StagesEvolve-preorder _ _ _ (
      Preserves-bind StagesEvolve-preorder _ _
        (try_write-StagesEvolve _ λ db.
          created-OfOk (λ db'. Evolves db.stages db'.stages)
            (refuses HostOrganism (record { id = ids.organism; input = input }) db.organisms) _ _
            (Evolves-refl db.stages))
        (λ _. Preserves-pure StagesEvolve-preorder ids.organism))

  pub resolve_tutor-StagesEvolve : (t : Choice TutorInput) (o : Uuid) → Ok (resolve_tutor c ids t o)
  unfolding resolve_tutor
  resolve_tutor-StagesEvolve (existing id) o = search (preserves_rules, StagesEvolve-preorder)
  resolve_tutor-StagesEvolve (new input) o = Preserves-catch_as StagesEvolve-preorder _ _ _ (
      Preserves-bind StagesEvolve-preorder _ _
        (try_write-StagesEvolve _ λ db.
          created-OfOk (λ db'. Evolves db.stages db'.stages)
            (refuses Tutor (record { id = ids.tutor; input = input; organism_id = o }) db.tutors) _
            _ (Evolves-refl db.stages))
        (λ _. Preserves-pure StagesEvolve-preorder ids.tutor))

  create_body-StagesEvolve :
      (dto : CreateRequest) (p : StudentProfile) (y : SchoolYear) (m : Semester)
      → Ok (create_body c env ids dto p y m)
  unfolding create_body
  create_body-StagesEvolve dto p y m =
      search
        (
          preserves_rules, StagesEvolve-preorder, resolve_organism-StagesEvolve,
          resolve_tutor-StagesEvolve, insert_stage-StagesEvolve,
        )
        depth 8

  -- `createDraft`
  pub create_draft-StagesEvolve :
      (user_id : Uuid) (dto : CreateRequest) → Ok (create_draft c env ids user_id dto)
  unfolding create_draft
  create_draft-StagesEvolve user_id dto =
      search
        (
          preserves_rules,
          StagesEvolve-preorder,
          transaction-StagesEvolve order refuses env,
          create_body-StagesEvolve,
        )
        depth 12

  -- `duplicate`
  pub duplicate-StagesEvolve :
      (user_id source_id : Uuid) → Ok (duplicate c env ids user_id source_id)
  unfolding duplicate
  duplicate-StagesEvolve user_id source_id =
      search (preserves_rules, StagesEvolve-preorder, insert_stage-StagesEvolve) depth 12
