-- ===== src/Api/Stages/Lifecycle.antt =====
-- The requests of many users as steps on one database. Each constructor is one write of the
-- services, from whatever its handler had read before: so the steps of several handlers may come in
-- any order. A transaction is one step.
pub mod Content
use mathlib.Core.Path.{subst}
use campus_internship.Prelude.{
  ℕ, ◌≤◌, ◌==◌, ◌≡◌, ◌≢◌, ◌∙◌, ap, Bool, true, Option, some, List, [], ◌∷◌, arith, Text, Bool-cases,
  inl, inr,
}
use campus_internship.Shared.Enums.{draft}
use campus_internship.Api.Schema.{Uuid, Stage}
use campus_internship.Api.World.{World, Env}
use campus_internship.Api.Prisma.{Client, IsClient, IsClient-eq, reference, find?}
use campus_internship.Api.Http.{PrismaCode}
use campus_internship.Api.Snapshot.{Snapshot}
use campus_internship.Api.Stages.Freeze.{is_decided}
use campus_internship.Api.Stages.Resolve.{Ids}
use campus_internship.Api.Stages.Create.{CreateRequest, create_draft, duplicate}
use campus_internship.Api.Stages.Update.{UpdateRequest, update_draft}
use campus_internship.Api.Stages.Submit.{submit_write}
use campus_internship.Api.Stages.Decide.{refused_with, validated_with, decision_write}
use campus_internship.Api.Stages.Evolution.{StageStep, Forward-ne-draft, content}
use campus_internship.Api.Stages.Evolution.Rows.{Evolves, Evolves-refl, Evolves-trans}
use campus_internship.Api.Stages.Evolution.Operations.{
  create_draft-StagesEvolve, duplicate-StagesEvolve, submit_write-StagesEvolve,
}
use campus_internship.Api.Stages.Evolution.Updates.{
  update_draft-StagesEvolve, refusal_write-StagesEvolve, validation_write-StagesEvolve,
}

pub data Step (c : Client) : World → World → Type 0 where
  created :
      (env : Env) (ids : Ids) (user_id : Uuid) (dto : CreateRequest) (w : World)
      → Step c w (create_draft c env ids user_id dto w).1
  duplicated :
      (env : Env) (ids : Ids) (user_id source_id : Uuid) (w : World)
      → Step c w (duplicate c env ids user_id source_id w).1
  updated :
      (env : Env) (ids : Ids) (user_id stage_id : Uuid) (dto : UpdateRequest) (w : World)
      → Step c w (update_draft c env ids user_id stage_id dto w).1
  -- the writes of `submit`, `refuseStage` and `validateStage`, with what was read earlier
  submitted : (env : Env) (read : Stage) (w : World) → Step c w (submit_write c env read w).1
  refused :
      (env : Env) (id : Uuid) (version : ℕ) (snapshot : Snapshot) (reason : Text) (w : World)
      → Step c w (decision_write c env id version (refused_with env snapshot reason) w).1
  validated :
      (env : Env) (id : Uuid) (version : ℕ) (snapshot : Snapshot) (w : World)
      → Step c w (decision_write c env id version (validated_with env snapshot) w).1
  -- what writes no stage: profiles, referents, files, sessions, organisms, emails
  elsewhere : (w w' : World) → w'.db.stages ≡ w.db.stages → Step c w w'

pub data Reach (c : Client) (w : World) : World → Type 0 where
  here : Reach c w w
  next : {u v : World} → Reach c w u → Step c u v → Reach c w v

abbrev pub no_ids : Ids
no_ids = record { organism = 0; tutor = 0; stage = 0; period = λ i. i }

Step-Evolves-reference :
    (order : (A : Type 0) → (A → A → Bool) → List A → List A)
    (refuses : (A : Type 0) → A → List A → Option PrismaCode) {w w' : World}
    → Step (reference order refuses) w w'
    → Evolves w.db.stages w'.db.stages
Step-Evolves-reference o r (created env ids user_id dto w) =
    ((create_draft-StagesEvolve o r env ids user_id dto).at w).rows
Step-Evolves-reference o r (duplicated env ids user_id source_id w) =
    ((duplicate-StagesEvolve o r env ids user_id source_id).at w).rows
Step-Evolves-reference o r (updated env ids user_id stage_id dto w) =
    ((update_draft-StagesEvolve o r env ids user_id stage_id dto).at w).rows
Step-Evolves-reference o r (submitted env read w) =
    ((submit_write-StagesEvolve o r env no_ids read).at w).rows
Step-Evolves-reference o r (refused env id version snapshot reason w) =
    ((refusal_write-StagesEvolve o r env no_ids id version snapshot reason).at w).rows
Step-Evolves-reference o r (validated env id version snapshot w) =
    ((validation_write-StagesEvolve o r env no_ids id version snapshot).at w).rows
Step-Evolves-reference o r (elsewhere w w' e) = rw e (Evolves-refl w.db.stages)

Reach-Evolves-reference :
    (order : (A : Type 0) → (A → A → Bool) → List A → List A)
    (refuses : (A : Type 0) → A → List A → Option PrismaCode) {w w' : World}
    → Reach (reference order refuses) w w'
    → Evolves w.db.stages w'.db.stages
Reach-Evolves-reference o r {w} here = Evolves-refl w.db.stages
Reach-Evolves-reference o r {w} {w'} (next {u} before s) =
    Evolves-trans w.db.stages u.db.stages w'.db.stages (Reach-Evolves-reference o r before)
      (Step-Evolves-reference o r s)

pub Reach-Evolves :
    (c : Client) → IsClient c → (w w' : World) → Reach c w w' → Evolves w.db.stages w'.db.stages
Reach-Evolves c law w w' run =
    Reach-Evolves-reference c.order_by c.insert_fails
      (subst (λ k. Reach k w w') (IsClient-eq c law) run)

-- the row of an id after a step of the table
find_evolved :
    (id : Uuid) (old new : List Stage) (s : Stage)
    → Evolves old new
    → find? (λ x. x.id == id) old ≡ some s
    → (t : Stage) × (find? (λ x. x.id == id) new ≡ some t) × StageStep s t
unfolding find?
find_evolved id [] new s h e = cc
find_evolved id (x ∷ old) [] s h e = absurd h
find_evolved id (x ∷ old) (y ∷ new) s h e =
    let same : y.id ≡ x.id = h.0.id in
    elim (Bool-cases (x.id == id)) [
      | inl found ↦
          let x_is : x ≡ s = ground arith in (y, ground arith, subst (λ z. StageStep z y) x_is h.0)
      | inr other ↦
          let (t, found, step) = find_evolved id old new s h.1 (ground arith) in
          (t, ground arith, step)
    ]

abbrev pub stage_of : Uuid → World → Option Stage
stage_of id w = find? (λ s. s.id == id) w.db.stages

module _ (c : Client) (law : IsClient c) (w w' : World) (run : Reach c w w') where
  -- A stage that exists goes on to exist, for the same student, and has stepped.
  pub stage_persists :
      (id : Uuid) (s : Stage)
      → stage_of id w ≡ some s
      → (t : Stage) × (stage_of id w' ≡ some t) × StageStep s t
  stage_persists id s e =
      find_evolved id w.db.stages w'.db.stages s (Reach-Evolves c law w w' run) e

  step_of :
      (id : Uuid) (s t : Stage) → stage_of id w ≡ some s → stage_of id w' ≡ some t → StageStep s t
  step_of id s t e f =
      let (u, found, step) = stage_persists id s e in
      let same : u ≡ t = ground arith in subst (StageStep s) same step

  -- Whatever requests are served in between, in any order of their writes, a stage that was
  -- validated or refused is found again exactly as it was.
  pub decided_stage_frozen :
      (id : Uuid) (s : Stage)
      → stage_of id w ≡ some s
      → is_decided s ≡ true
      → stage_of id w' ≡ some s
  decided_stage_frozen id s e d =
      let (t, found, step) = stage_persists id s e in
      let same : t ≡ s = step.frozen d in found ∙ ap some same

  -- A stage that is found later at the version at which it was read has not been written.
  pub version_guards_stage :
      (id : Uuid) (s t : Stage)
      → stage_of id w ≡ some s
      → stage_of id w' ≡ some t
      → t.version ≡ s.version
      → t ≡ s
  version_guards_stage id s t e f v = (step_of id s t e f).locked v

  pub content_kept :
      (id : Uuid) (s t : Stage)
      → stage_of id w ≡ some s
      → stage_of id w' ≡ some t
      → s.status ≢ draft
      → (content t ≡ content s) × (t.status ≢ draft) × (s.version ≤ t.version)
  content_kept id s t e f d =
      let step = step_of id s t e f in
      (step.content d, Forward-ne-draft s.status t.status d step.forward, step.version)
