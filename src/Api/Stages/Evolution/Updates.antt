-- ===== src/Api/Stages/Evolution/Updates.antt =====
-- The update of a draft and the decisions let the stages evolve, whether they return or throw.
use campus_internship.Prelude.{ℕ, refl, Bool, Option, List, Text}
use campus_internship.Shared.Enums.{Semester}
use campus_internship.Shared.SchoolYear.{SchoolYear}
use campus_internship.Shared.StagePeriod.{Period}
use campus_internship.Api.Http.{PrismaCode}
use campus_internship.Api.Schema.{Uuid, Stage, OrganismInput, TutorInput}
use campus_internship.Api.World.{Env, M}
use campus_internship.Api.World.Preserves.{Preserves, preserves_rules}
use campus_internship.Api.Prisma.{Client, reference}
use campus_internship.Api.Stages.Resolve.{
  UpdateChoice, choose, edit, Ids, resolve_organism_for_update, resolve_tutor_for_update,
}
use campus_internship.Api.Stages.Update.{
  UpdateRequest, is_draft_at, rewritten, rewrite_stage, replace_periods, update_body, update_draft,
}
use campus_internship.Api.Snapshot.{Snapshot}
use campus_internship.Api.Stages.Decide.{
  is_pending_at, refused_with, validated_with, decision_write,
}
use campus_internship.Api.Stages.Evolution.Steps.{
  rewritten-StageStep, refused_with-StageStep, validated_with-StageStep,
}
use campus_internship.Api.Stages.Evolution.Rows.{StagesEvolve, StagesEvolve-preorder}
use campus_internship.Api.Stages.Evolution.Writes.{
  write-StagesEvolve, update-StagesEvolve, transaction-StagesEvolve,
}
use campus_internship.Api.Stages.Evolution.Operations.{
  resolve_organism-StagesEvolve, resolve_tutor-StagesEvolve, get_by_id-StagesEvolve,
}

module _ (order : (A : Type 0) → (A → A → Bool) → List A → List A)
    (refuses : (A : Type 0) → A → List A → Option PrismaCode) (env : Env) (ids : Ids) where
  abbrev c : Client
  c = reference order refuses

  abbrev Ok : {A : Type 0} → M A → Type 0
  Ok m = Preserves StagesEvolve m

  rewrite_stage-StagesEvolve :
      (dto : UpdateRequest) (y : SchoolYear) (m : Semester) (o t id : Uuid)
      → Ok (rewrite_stage c env ids dto y m o t id)
  unfolding rewrite_stage
  rewrite_stage-StagesEvolve dto y m o t id =
      update-StagesEvolve (is_draft_at id dto.version) (rewritten dto y m o t)
        (rewritten-StageStep dto y m o t id dto.version)

  replace_periods-StagesEvolve :
      (id : Uuid) (ps : List Period) → Ok (replace_periods c env ids id ps)
  unfolding replace_periods
  replace_periods-StagesEvolve id ps = write-StagesEvolve _ (λ db. refl)

  resolve_organism_for_update-StagesEvolve :
      (s : Stage) (o : UpdateChoice OrganismInput) → Ok (resolve_organism_for_update c ids s o)
  unfolding resolve_organism_for_update
  resolve_organism_for_update-StagesEvolve s (choose o) =
      resolve_organism-StagesEvolve order refuses env ids o
  resolve_organism_for_update-StagesEvolve s (edit id input) =
      search (preserves_rules, StagesEvolve-preorder, write-StagesEvolve) depth 12

  resolve_tutor_for_update-StagesEvolve :
      (s : Stage) (t : UpdateChoice TutorInput) (o : Uuid)
      → Ok (resolve_tutor_for_update c ids s t o)
  unfolding resolve_tutor_for_update
  resolve_tutor_for_update-StagesEvolve s (choose t) o =
      resolve_tutor-StagesEvolve order refuses env ids t o
  resolve_tutor_for_update-StagesEvolve s (edit id input) o =
      search (preserves_rules, StagesEvolve-preorder, write-StagesEvolve) depth 14

  update_body-StagesEvolve :
      (user_id stage_id : Uuid) (dto : UpdateRequest) (y : SchoolYear) (m : Semester)
      → Ok (update_body c env ids user_id stage_id dto y m)
  unfolding update_body
  update_body-StagesEvolve user_id stage_id dto y m =
      search
        (
          preserves_rules, StagesEvolve-preorder, resolve_organism_for_update-StagesEvolve,
          resolve_tutor_for_update-StagesEvolve, rewrite_stage-StagesEvolve,
          replace_periods-StagesEvolve,
        )
        depth 14

  -- `updateDraft`
  pub update_draft-StagesEvolve :
      (user_id stage_id : Uuid) (dto : UpdateRequest)
      → Ok (update_draft c env ids user_id stage_id dto)
  unfolding update_draft
  update_draft-StagesEvolve user_id stage_id dto =
      search
        (
          preserves_rules,
          StagesEvolve-preorder,
          transaction-StagesEvolve order refuses env,
          update_body-StagesEvolve,
          get_by_id-StagesEvolve order refuses env ids,
        )
        depth 10

  pub refusal_write-StagesEvolve :
      (id : Uuid) (v : ℕ) (snapshot : Snapshot) (reason : Text)
      → Ok (decision_write c env id v (refused_with env snapshot reason))
  unfolding decision_write
  refusal_write-StagesEvolve id v snapshot reason = search (
    preserves_rules,
    StagesEvolve-preorder,
    update-StagesEvolve (is_pending_at id v) (refused_with env snapshot reason)
        (refused_with-StageStep env snapshot reason id v),
  )

  pub validation_write-StagesEvolve :
      (id : Uuid) (v : ℕ) (snapshot : Snapshot)
      → Ok (decision_write c env id v (validated_with env snapshot))
  unfolding decision_write
  validation_write-StagesEvolve id v snapshot = search (
    preserves_rules,
    StagesEvolve-preorder,
    update-StagesEvolve (is_pending_at id v) (validated_with env snapshot)
        (validated_with-StageStep env snapshot id v),
  )
