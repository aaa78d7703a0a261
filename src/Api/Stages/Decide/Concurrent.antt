-- ===== src/Api/Stages/Decide/Concurrent.antt =====
-- Two admins who decide on the same request at the same time.
use campus_internship.Prelude.{◌≡◌, ◌≢◌, ◌==◌, refl, some, arith, Text}
use campus_internship.Api.Http.{ok, err}
use campus_internship.Api.Schema.{Uuid, Stage}
use campus_internship.Api.World.{World, Env}
use campus_internship.Api.Prisma.{Client, IsClient, find?}
use campus_internship.Api.Prisma.Tables.{Keyed, Keyed-update_where}
use campus_internship.Api.Stages.Decide.{
  DecidingAdmin, Prepared, prepare_validation, validate_stage, prepare_refusal, refuse_stage,
  refused_with, decision_write, decision_conflict, validated_with, is_pending_at,
}
use campus_internship.Api.Stages.Decide.Laws.{validate_stage_accepted, refuse_stage_accepted}
use campus_internship.Api.Stages.Decide.Branches.{decided_rows, decision_write_stale}

-- The decision of the first admin, on what its handler read: a validation or a refusal, with the world
-- that it leaves.
pub data Decided (c : Client) (env : Env) (id : Uuid) (admin : DecidingAdmin) (w : World)
    (p : Prepared) : World → Type 0 where
  by_validation :
      (prepare_validation c env id admin w).0 ≡ ok p
      → Decided c env id admin w p (validate_stage c env id p.request.stage.version admin w).1
  by_refusal :
      (reason : Text)
      → (prepare_refusal c env id admin w).0 ≡ ok p
      → Decided c env id admin w p (refuse_stage c env id p.request.stage.version reason admin w).1

module _ (c : Client) (law : IsClient c) (env : Env) (id : Uuid) (admin : DecidingAdmin) (w : World)
    (p : Prepared) (other_env : Env) (data_of : Stage → Stage)
    (keyed : Keyed (λ (s : Stage). s.id) w.db.stages) where
  -- after the write of the first decision, which raises the version
  loses_after :
      (first : Stage → Stage) (after : World)
      → ((s : Stage) → (first s).id ≡ s.id)
      → (first p.request.stage).version ≢ p.request.stage.version
      → after.db ≡ (decided_rows first id p.request.stage.version w).db
      → find? (λ s. s.id == id) after.db.stages ≡ some (first p.request.stage)
      → decision_write c other_env id p.request.stage.version data_of after
        ≡ (err decision_conflict, after)
  loses_after first after kept raised wrote row =
      let keyed_after : Keyed (λ (s : Stage). s.id) after.db.stages = rw wrote (
        Keyed-update_where (λ (s : Stage). s.id) (is_pending_at id p.request.stage.version) first
          kept w.db.stages keyed) in
      decision_write_stale c law other_env id p.request.stage.version data_of after
        (first p.request.stage) row keyed_after raised

  -- Two admins have the same version of a request before them, and the ids of the stages differ. Once
  -- the decision of the one, a validation or a refusal, has been accepted, the conditional write of
  -- the other, whatever it would write and whenever its handler read the request, is answered by a
  -- conflict and changes nothing.
  pub second_decision_loses :
      (after : World)
      → Decided c env id admin w p after
      → decision_write c other_env id p.request.stage.version data_of after
        ≡ (err decision_conflict, after)
  second_decision_loses after (by_validation read) =
      let (answered, wrote, row, back) = validate_stage_accepted c law env id admin w p read in
      loses_after (validated_with env p.snapshot) _ (λ s. refl) (λ e. ground arith) wrote row
  second_decision_loses after (by_refusal reason read) =
      let (answered, wrote, row, back) = refuse_stage_accepted c law env id admin w p reason read in
      loses_after (refused_with env p.snapshot reason) _ (λ s. refl) (λ e. ground arith) wrote row
