-- ===== src/Api/Stages/Evolution/Keeping.antt =====
-- Every operation on stages keeps the periods of the stages that are no drafts, where the database
-- refuses a second stage of the same id.
use campus_internship.Prelude.{
  ℕ, ◌==◌, ◌≡◌, refl, Bool, false, Option, none, some, List, [], ◌∷◌, ◌++◌, any, Text,
}
use campus_internship.Shared.Enums.{Semester}
use campus_internship.Shared.SchoolYear.{SchoolYear}
use campus_internship.Shared.StagePeriod.{Period}
use campus_internship.Api.Http.{Result, ok, err, PrismaCode}
use campus_internship.Api.Schema.{
  Uuid, Stage, HostOrganism, Tutor, StudentProfile, OrganismInput, TutorInput, Db,
}
use campus_internship.Api.World.{World, Env, M, map_result}
use campus_internship.Api.World.Preserves.{
  Preserves, Preserves-bind, Preserves-catch_as, Preserves-option, Preserves-pure, preserves_rules,
}
use campus_internship.Api.Prisma.{Client, reference, created, keep_on_success}
use campus_internship.Api.Stages.Read.{get_by_id, try_read_snapshot, read_snapshot}
use campus_internship.Api.Stages.Resolve.{
  Choice, existing, new, Ids, resolve_organism, resolve_tutor,
}
use campus_internship.Api.Stages.Create.{
  CreateRequest, period_rows, insert_stage, create_body, create_draft, duplicate,
}
use campus_internship.Api.Stages.Update.{is_draft_at}
use campus_internship.Api.Stages.Submit.{submit_write, submitted}
use campus_internship.Api.Snapshot.{Snapshot, parse_stage_snapshot}
use campus_internship.Api.Stages.Decide.{
  is_pending_at, refused_with, validated_with, decision_write,
}
use campus_internship.Api.Stages.Evolution.Steps.{
  submitted-StageStep, refused_with-StageStep, validated_with-StageStep,
}
use campus_internship.Api.Stages.Evolution.Writes.{OfOk, created-OfOk}
use campus_internship.Api.Stages.Evolution.Periods.{
  PeriodsKept, PeriodsKept-preorder, periods-added, Settled-append, new_id, update-PeriodsKept,
  try_write-PeriodsKept,
}

module _ (order : (A : Type 0) → (A → A → Bool) → List A → List A)
    (refuses : (A : Type 0) → A → List A → Option PrismaCode)
    (unique : (s : Stage) (rows : List Stage)
      → refuses Stage s rows ≡ none
      → any (λ (x : Stage). x.id == s.id) rows ≡ false)
    (env : Env) (ids : Ids) where
  abbrev c : Client
  c = reference order refuses

  abbrev Ok : {A : Type 0} → M A → Type 0
  Ok m = Preserves PeriodsKept m

  pub transaction-PeriodsKept : {A : Type 0} (m : M A) → Ok m → Ok (c.transaction A m)
  transaction-PeriodsKept {A} m h = record { at = λ w. go w (m w).0 (m w).1 (h.at w) }
    where
      go :
          (w : World) (r : Result A) (w' : World)
          → PeriodsKept w.db w'.db
          → PeriodsKept w.db (keep_on_success w r w').1.db
      go w (ok a) w' s = s
      go w (err e) w' s = PeriodsKept-preorder.stay w.db

  same_tables : (a b : Db) → b.stages ≡ a.stages → b.periods ≡ a.periods → PeriodsKept a b
  same_tables a b e f = record { kept = λ id st. (rw e st, rw f refl) }

  pub submit_write-PeriodsKept : (s : Stage) → Ok (submit_write c env s)
  unfolding submit_write
  submit_write-PeriodsKept s = search (
    preserves_rules,
    PeriodsKept-preorder,
    update-PeriodsKept (is_draft_at s.id s.version) (submitted env)
        (submitted-StageStep env s.id s.version),
  )

  try_read_snapshot-PeriodsKept : (s : Stage) → Ok (try_read_snapshot c env s)
  unfolding try_read_snapshot
  try_read_snapshot-PeriodsKept s =
      Preserves-option (parse_stage_snapshot env.is_datetime s.snapshot s.snapshot_version) _ _
        (search (preserves_rules, PeriodsKept-preorder))
        (λ snapshot. Preserves-pure PeriodsKept-preorder (some snapshot))

  pub get_by_id-PeriodsKept : (user_id stage_id : Uuid) → Ok (get_by_id c env user_id stage_id)
  unfolding get_by_id read_snapshot
  get_by_id-PeriodsKept user_id stage_id =
      search (preserves_rules, PeriodsKept-preorder, try_read_snapshot-PeriodsKept) depth 12

  inserted_kept :
      (s : Stage) (ps : List Period) (db : Db) (code : Option PrismaCode)
      → refuses Stage s db.stages ≡ code
      → OfOk (PeriodsKept db) (
          map_result
            (λ rows. record db {
              stages = rows;
              periods = db.periods ++ period_rows ids.period 0 s.id ps;
            })
            (created code (db.stages ++ s ∷ [])))
  inserted_kept s ps db (some code) e = tt
  inserted_kept s ps db none e = record {
    kept = λ id st.
        let other : (s.id == id) ≡ false =
          new_id id s db.stages (unique s db.stages e) st.present in
        (
          Settled-append id s db.stages other st,
          periods-added ids.period s.id id ps db.periods other,
        );
  }

  insert_stage-PeriodsKept : (s : Stage) (ps : List Period) → Ok (insert_stage c env ids s ps)
  unfolding insert_stage
  insert_stage-PeriodsKept s ps =
      try_write-PeriodsKept _ λ db. inserted_kept s ps db (refuses Stage s db.stages) refl

  pub resolve_organism-PeriodsKept : (o : Choice OrganismInput) → Ok (resolve_organism c ids o)
  unfolding resolve_organism
  resolve_organism-PeriodsKept (existing id) = search (preserves_rules, PeriodsKept-preorder)
  resolve_organism-PeriodsKept (new input) = Preserves-catch_as PeriodsKept-preorder _ _ _ (
      Preserves-bind PeriodsKept-preorder _ _
        (try_write-PeriodsKept _ λ db.
          created-OfOk (PeriodsKept db)
            (refuses HostOrganism (record { id = ids.organism; input = input }) db.organisms) _ _
            (same_tables db _ refl refl))
        (λ _. Preserves-pure PeriodsKept-preorder ids.organism))

  pub resolve_tutor-PeriodsKept : (t : Choice TutorInput) (o : Uuid) → Ok (resolve_tutor c ids t o)
  unfolding resolve_tutor
  resolve_tutor-PeriodsKept (existing id) o = search (preserves_rules, PeriodsKept-preorder)
  resolve_tutor-PeriodsKept (new input) o = Preserves-catch_as PeriodsKept-preorder _ _ _ (
      Preserves-bind PeriodsKept-preorder _ _
        (try_write-PeriodsKept _ λ db.
          created-OfOk (PeriodsKept db)
            (refuses Tutor (record { id = ids.tutor; input = input; organism_id = o }) db.tutors) _
            _ (same_tables db _ refl refl))
        (λ _. Preserves-pure PeriodsKept-preorder ids.tutor))

  create_body-PeriodsKept :
      (dto : CreateRequest) (p : StudentProfile) (y : SchoolYear) (m : Semester)
      → Ok (create_body c env ids dto p y m)
  unfolding create_body
  create_body-PeriodsKept dto p y m =
      search
        (
          preserves_rules, PeriodsKept-preorder, resolve_organism-PeriodsKept,
          resolve_tutor-PeriodsKept, insert_stage-PeriodsKept,
        )
        depth 8

  pub create_draft-PeriodsKept :
      (user_id : Uuid) (dto : CreateRequest) → Ok (create_draft c env ids user_id dto)
  unfolding create_draft
  create_draft-PeriodsKept user_id dto =
      search
        (preserves_rules, PeriodsKept-preorder, transaction-PeriodsKept, create_body-PeriodsKept)
        depth 12

  pub duplicate-PeriodsKept :
      (user_id source_id : Uuid) → Ok (duplicate c env ids user_id source_id)
  unfolding duplicate
  duplicate-PeriodsKept user_id source_id =
      search (preserves_rules, PeriodsKept-preorder, insert_stage-PeriodsKept) depth 12

  pub refusal_write-PeriodsKept :
      (id : Uuid) (v : ℕ) (snapshot : Snapshot) (reason : Text)
      → Ok (decision_write c env id v (refused_with env snapshot reason))
  unfolding decision_write
  refusal_write-PeriodsKept id v snapshot reason = search (
    preserves_rules,
    PeriodsKept-preorder,
    update-PeriodsKept (is_pending_at id v) (refused_with env snapshot reason)
        (refused_with-StageStep env snapshot reason id v),
  )

  pub validation_write-PeriodsKept :
      (id : Uuid) (v : ℕ) (snapshot : Snapshot)
      → Ok (decision_write c env id v (validated_with env snapshot))
  unfolding decision_write
  validation_write-PeriodsKept id v snapshot = search (
    preserves_rules,
    PeriodsKept-preorder,
    update-PeriodsKept (is_pending_at id v) (validated_with env snapshot)
        (validated_with-StageStep env snapshot id v),
  )
