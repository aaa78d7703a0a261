-- ===== src/Api/Stages/Evolution/Steps.antt =====
-- The conditional writes of the services are steps of a request.
use campus_internship.Prelude.{ℕ, ◌+◌, ◌≡◌, ◌≢◌, refl, true, arith, Text}
use campus_internship.Shared.Enums.{Semester, StageStatus, draft, pending, validated, refused}
use campus_internship.Shared.SchoolYear.{SchoolYear}
use campus_internship.Api.Schema.{Uuid, Stage}
use campus_internship.Api.World.{Env}
use campus_internship.Api.Snapshot.{Snapshot}
use campus_internship.Api.Stages.Update.{UpdateRequest, is_draft_at, rewritten}
use campus_internship.Api.Stages.Submit.{submitted}
use campus_internship.Api.Stages.Decide.{is_pending_at, refused_with, validated_with}
use campus_internship.Api.Stages.Evolution.{StageStep, Forward, content}

-- a write of a draft that raises its version
draft-StageStep :
    (s t : Stage)
    → s.status ≡ draft
    → t.id ≡ s.id
    → t.student_id ≡ s.student_id
    → t.version ≡ s.version + 1
    → StageStep s t
draft-StageStep s t st i u v = record {
  id = i;
  student = u;
  version = omega arith;
  locked = λ e. absurd (omega arith);
  forward = rw st tt;
  content = λ e. absurd (e st);
  frozen = λ e. ground arith;
}

pub submitted-StageStep :
    (env : Env) (id : Uuid) (v : ℕ) (s : Stage)
    → is_draft_at id v s ≡ true
    → StageStep s (submitted env s)
submitted-StageStep env id v s h = draft-StageStep s (submitted env s) (ground arith) refl refl refl

pub rewritten-StageStep :
    (dto : UpdateRequest) (y : SchoolYear) (m : Semester) (o t id : Uuid) (v : ℕ) (s : Stage)
    → is_draft_at id v s ≡ true
    → StageStep s (rewritten dto y m o t s)
rewritten-StageStep dto y m o t id v s h =
    draft-StageStep s (rewritten dto y m o t s) (ground arith) refl refl refl

-- a decision on a pending stage
pending-StageStep :
    (s t : Stage)
    → s.status ≡ pending
    → t.id ≡ s.id
    → t.student_id ≡ s.student_id
    → t.version ≡ s.version + 1
    → t.status ≢ draft
    → content t ≡ content s
    → StageStep s t
pending-StageStep s t st i u v d k = record {
  id = i;
  student = u;
  version = omega arith;
  locked = λ e. absurd (omega arith);
  forward = rw st (pending_forward t.status d);
  content = λ e. k;
  frozen = λ e. ground arith;
}
  where
    pending_forward : (x : StageStatus) → x ≢ draft → Forward pending x
    pending_forward draft e = e refl
    pending_forward pending e = tt
    pending_forward validated e = tt
    pending_forward refused e = tt

pub refused_with-StageStep :
    (env : Env) (snapshot : Snapshot) (reason : Text) (id : Uuid) (v : ℕ) (s : Stage)
    → is_pending_at id v s ≡ true
    → StageStep s (refused_with env snapshot reason s)
refused_with-StageStep env snapshot reason id v s h =
    pending-StageStep s (refused_with env snapshot reason s) (ground arith) refl refl refl
      (λ e. cc e) refl

pub validated_with-StageStep :
    (env : Env) (snapshot : Snapshot) (id : Uuid) (v : ℕ) (s : Stage)
    → is_pending_at id v s ≡ true
    → StageStep s (validated_with env snapshot s)
validated_with-StageStep env snapshot id v s h =
    pending-StageStep s (validated_with env snapshot s) (ground arith) refl refl refl (λ e. cc e)
      refl
