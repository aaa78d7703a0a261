-- ===== src/Api/Stages/Decide/Laws.antt =====
-- What a decision does on each branch.
use campus_internship.Prelude.{
  ℕ, ◌≡◌, ◌≢◌, refl, sym, ap, ◌∙◌, ◌==◌, String, true, none, some, arith, Text,
}
use campus_internship.Shared.Enums.{pending, validated, refused}
use campus_internship.Api.Http.{ok, err, not_pending, no_referent}
use campus_internship.Api.Schema.{Uuid, Stage, Db}
use campus_internship.Api.World.{World, Env, ◌>>=◌}
use campus_internship.Api.Prisma.{Client, IsClient, find?}
use campus_internship.Api.Prisma.Tables.{Keyed, find?_test, find?-update_where}
use campus_internship.Api.Snapshot.{parse_stage_snapshot, snapshot_json}
use campus_internship.Api.Stages.Responses.{stage_conflict}
use campus_internship.Api.Stages.Read.{assigned_referent}
use campus_internship.Api.Stages.Reading.{
  notify_refusal-ReadOnly, notify_validation-ReadOnly, notify_refusal-Quiet,
  notify_validation-Quiet,
}
use campus_internship.Api.Stages.Decide.{
  DecidingAdmin, Prepared, PendingStage, is_pending_at, refused_with, validated_with,
  decision_conflict, find_assigned_referent_or_throw, prepare_decision, prepare_refusal,
  prepare_validation, refuse_stage, validate_stage, notify_student_of_refusal,
  notify_student_of_validation, find_pending_stage_or_throw,
}
use campus_internship.Api.Stages.Decide.Branches.{
  Reads, prepare_decision-Reads, reads_back, decided_rows, decide_accepted, decide_stale,
}

module _ (c : Client) (law : IsClient c) (env : Env) (id : Uuid) (admin : DecidingAdmin) (w : World)
    (p : Prepared) where
  -- the row of the request, after the conditional write
  decided_row :
      (data_of : Stage → Stage) (keeps : (s : Stage) → (data_of s).id ≡ s.id)
      → Reads c env id admin w.db p
      → find? (λ s. s.id == id) (decided_rows data_of id p.request.stage.version w).db.stages
        ≡ some (data_of p.request.stage)
  decided_row data_of keeps r =
      let found : find? (λ x. x.id == id) w.db.stages ≡ some p.request.stage =
        sym (law.find_first_lem Stage (λ x. x.id == id) w.db.stages) ∙ r.found in
      let is_id : (p.request.stage.id == id) ≡ true =
        find?_test (λ x. x.id == id) w.db.stages p.request.stage found in
      let pending_there : p.request.stage.status ≡ pending = r.is_pending in
      find?-update_where (λ s. s.id) (is_pending_at id p.request.stage.version) data_of id
        (λ x t. ground arith) keeps w.db.stages p.request.stage found (ground arith)

  pub validate_stage_accepted :
      (prepare_validation c env id admin w).0 ≡ ok p
      → let after = validate_stage c env id p.request.stage.version admin w in
        (after.0
          ≡ ok (record {
            id = p.request.stage.id;
            status = validated;
            decided_at = env.to_iso_string env.now;
          }))
        × (after.1.db
            ≡ (decided_rows (validated_with env p.snapshot) id p.request.stage.version w).db)
        × (find? (λ s. s.id == id) after.1.db.stages
            ≡ some (validated_with env p.snapshot p.request.stage))
        × (parse_stage_snapshot env.is_datetime (some (snapshot_json p.snapshot)) (some 1)
            ≡ some p.snapshot)
  unfolding validate_stage
  validate_stage_accepted read =
      let r = prepare_decision-Reads c env id admin _ _ w p read in
      let (answered, wrote) =
        decide_accepted c law env id admin w p
          (λ q.
            notify_student_of_validation c env q.request.student q.request.user
              q.request.organism.name q.referent_user admin.acting)
          (λ v. notify_validation-Quiet c env _ _ _ _ _ v)
          (notify_validation-ReadOnly c env _ _ _ _ _) (λ q. validated_with env q.snapshot)
          (λ q. record {
            id = q.request.stage.id;
            status = validated;
            decided_at = env.to_iso_string env.now;
          })
          _ _ read (λ s. refl) in
      (
        answered,
        wrote,
        ap (λ (db : Db). find? (λ s. s.id == id) db.stages) wrote
            ∙ decided_row (validated_with env p.snapshot) (λ s. refl) r,
        reads_back env p.request p.referent p.referent_user admin p.snapshot r.froze,
      )

  pub refuse_stage_accepted :
      (reason : Text)
      → (prepare_refusal c env id admin w).0 ≡ ok p
      → let after = refuse_stage c env id p.request.stage.version reason admin w in
        (after.0
          ≡ ok (record {
            id = p.request.stage.id;
            status = refused;
            decided_at = env.to_iso_string env.now;
          }))
        × (after.1.db
            ≡ (decided_rows (refused_with env p.snapshot reason) id p.request.stage.version w).db)
        × (find? (λ s. s.id == id) after.1.db.stages
            ≡ some (refused_with env p.snapshot reason p.request.stage))
        × (parse_stage_snapshot env.is_datetime (some (snapshot_json p.snapshot)) (some 1)
            ≡ some p.snapshot)
  unfolding refuse_stage
  refuse_stage_accepted reason read =
      let r = prepare_decision-Reads c env id admin _ _ w p read in
      let (answered, wrote) =
        decide_accepted c law env id admin w p
          (λ q.
            notify_student_of_refusal c env q.request.student q.request.user q.request.organism.name
              reason admin.acting)
          (λ v. notify_refusal-Quiet c env _ _ _ _ _ v) (notify_refusal-ReadOnly c env _ _ _ _ _)
          (λ q. refused_with env q.snapshot reason)
          (λ q. record {
            id = q.request.stage.id;
            status = refused;
            decided_at = env.to_iso_string env.now;
          })
          _ _ read (λ s. refl) in
      (
        answered,
        wrote,
        ap (λ (db : Db). find? (λ s. s.id == id) db.stages) wrote
            ∙ decided_row (refused_with env p.snapshot reason) (λ s. refl) r,
        reads_back env p.request p.referent p.referent_user admin p.snapshot r.froze,
      )

  -- Where the ids of the stages differ, a validation at a version that the request no longer has,
  -- or does not have yet, is answered by a conflict and writes nothing.
  pub stale_validation_refused :
      (version : ℕ)
      → Keyed (λ (s : Stage). s.id) w.db.stages
      → p.request.stage.version ≢ version
      → (prepare_validation c env id admin w).0 ≡ ok p
      → ((validate_stage c env id version admin w).0 ≡ err decision_conflict)
        × ((validate_stage c env id version admin w).1.db ≡ w.db)
  unfolding validate_stage
  stale_validation_refused version keyed v read =
      decide_stale c law env id admin w p
        (λ q.
          notify_student_of_validation c env q.request.student q.request.user
            q.request.organism.name q.referent_user admin.acting)
        (λ v. notify_validation-Quiet c env _ _ _ _ _ v)
        (notify_validation-ReadOnly c env _ _ _ _ _) (λ q. validated_with env q.snapshot)
        (λ q. record {
          id = q.request.stage.id;
          status = validated;
          decided_at = env.to_iso_string env.now;
        })
        _ _ read (λ s. refl) version keyed v

  -- Where the ids of the stages differ, a refusal at a version that the request no longer has, or does
  -- not have yet, is answered by a conflict and writes nothing.
  pub stale_refusal_refused :
      (version : ℕ) (reason : Text)
      → Keyed (λ (s : Stage). s.id) w.db.stages
      → p.request.stage.version ≢ version
      → (prepare_refusal c env id admin w).0 ≡ ok p
      → ((refuse_stage c env id version reason admin w).0 ≡ err decision_conflict)
        × ((refuse_stage c env id version reason admin w).1.db ≡ w.db)
  unfolding refuse_stage
  stale_refusal_refused version reason keyed v read =
      decide_stale c law env id admin w p
        (λ q.
          notify_student_of_refusal c env q.request.student q.request.user q.request.organism.name
            reason admin.acting)
        (λ v. notify_refusal-Quiet c env _ _ _ _ _ v) (notify_refusal-ReadOnly c env _ _ _ _ _)
        (λ q. refused_with env q.snapshot reason)
        (λ q. record {
          id = q.request.stage.id;
          status = refused;
          decided_at = env.to_iso_string env.now;
        })
        _ _ read (λ s. refl) version keyed v

module _ (c : Client) (env : Env) (id : Uuid) (version : ℕ) (reason : Text) (admin : DecidingAdmin)
    (w : World) where
  -- A decision on a request that is not pending is answered by a conflict, and nothing changes.
  pub decision_needs_pending :
      (s : Stage)
      → c.find_first Stage (λ x. x.id == id) w.db.stages ≡ some s
      → s.status ≢ pending
      → (validate_stage c env id version admin w
          ≡ (err (stage_conflict not_pending "Seule une demande soumise peut être validée"), w))
        × (refuse_stage c env id version reason admin w
            ≡ (err (stage_conflict not_pending "Seule une demande soumise peut être refusée"), w))
  unfolding validate_stage refuse_stage prepare_decision find_pending_stage_or_throw ◌>>=◌
  decision_needs_pending s found st = ground arith

  -- A decision on a complete request without an assigned referent is answered by a conflict, and
  -- nothing changes.
  pub decision_needs_referent :
      (request : PendingStage)
      → ((m : String) → find_pending_stage_or_throw c env id m w ≡ (ok request, w))
      → assigned_referent c env request.stage.student_id request.stage.school_year
          request.stage.semester request.stage.mandatory w.db
        ≡ none
      → (validate_stage c env id version admin w ≡ (
        err (
            stage_conflict no_referent
              "Un enseignant référent doit être assigné avant de valider cette demande"),
        w,
      ))
        × (refuse_stage c env id version reason admin w ≡ (
          err (
              stage_conflict no_referent
                "Un enseignant référent doit être assigné avant de refuser cette demande"),
          w,
        ))
  unfolding validate_stage refuse_stage prepare_decision find_assigned_referent_or_throw ◌>>=◌
  decision_needs_referent request found missing = (
    rw (found "Seule une demande soumise peut être validée", missing),
    rw (found "Seule une demande soumise peut être refusée", missing),
  )
