-- ===== src/Api/Stages/Evolution/Redrafts.antt =====
-- `updateDraft` keeps the periods of the stages that are no drafts.
use campus_internship.Prelude.{
  ℕ, ◌==◌, ◌≡◌, ◌&&◌, refl, ◌∙◌, Bool, true, false, not, Option, none, List, [], ◌∷◌, any, select,
  length, arith, Bool-cases, inl, inr,
}
use campus_internship.Shared.Enums.{Semester, draft, status_eq}
use campus_internship.Shared.SchoolYear.{SchoolYear}
use campus_internship.Api.Http.{PrismaCode}
use campus_internship.Api.Schema.{Uuid, Stage, StagePeriod, OrganismInput, TutorInput}
use campus_internship.Api.World.{World, Env, M, ◌>>=◌, ◌>>◌, require}
use campus_internship.Api.World.Preserves.{Preserves, preserves_rules}
use campus_internship.Api.Prisma.{Client, reference, update_where, delete_where}
use campus_internship.Api.Stages.Responses.{version_conflict_error}
use campus_internship.Api.Stages.Resolve.{
  UpdateChoice, choose, edit, Ids, resolve_organism_for_update, resolve_tutor_for_update,
}
use campus_internship.Api.Stages.Update.{
  UpdateRequest, is_draft_at, rewritten, rewrite_stage, replace_periods, update_body, update_draft,
}
use campus_internship.Api.Stages.Evolution.Steps.{rewritten-StageStep}
use campus_internship.Api.Stages.Evolution.Periods.{
  Settled, periods_of_stage, PeriodsKept, PeriodsKept-preorder, Settled-update, periods-added,
  periods-deleted, write-PeriodsKept,
}
use campus_internship.Api.Stages.Evolution.Keeping.{
  transaction-PeriodsKept, get_by_id-PeriodsKept, resolve_organism-PeriodsKept,
  resolve_tutor-PeriodsKept,
}

module _ (order : (A : Type 0) → (A → A → Bool) → List A → List A)
    (refuses : (A : Type 0) → A → List A → Option PrismaCode)
    (unique : (s : Stage) (rows : List Stage)
      → refuses Stage s rows ≡ none
      → any (λ (x : Stage). x.id == s.id) rows ≡ false)
    (env : Env) (ids : Ids) where
  abbrev c : Client
  c = reference order refuses

  abbrev Ok : {A : Type 0} → M A → Type 0
  Ok m = Preserves PeriodsKept m

  resolve_organism_for_update-PeriodsKept :
      (s : Stage) (o : UpdateChoice OrganismInput) → Ok (resolve_organism_for_update c ids s o)
  unfolding resolve_organism_for_update
  resolve_organism_for_update-PeriodsKept s (choose o) =
      resolve_organism-PeriodsKept order refuses unique env ids o
  resolve_organism_for_update-PeriodsKept s (edit id input) =
      search (preserves_rules, PeriodsKept-preorder, write-PeriodsKept) depth 12

  resolve_tutor_for_update-PeriodsKept :
      (s : Stage) (t : UpdateChoice TutorInput) (o : Uuid)
      → Ok (resolve_tutor_for_update c ids s t o)
  unfolding resolve_tutor_for_update
  resolve_tutor_for_update-PeriodsKept s (choose t) o =
      resolve_tutor-PeriodsKept order refuses unique env ids t o
  resolve_tutor_for_update-PeriodsKept s (edit id input) o =
      search (preserves_rules, PeriodsKept-preorder, write-PeriodsKept) depth 14

  -- where no draft has an id, a conditional write of a draft of that id writes nothing
  none_written :
      (id : Uuid) (v : ℕ) (rows : List Stage)
      → any (λ (s : Stage). (s.id == id) && status_eq s.status draft) rows ≡ false
      → (length (select (is_draft_at id v) rows) == 0) ≡ true
  none_written id v [] e = refl
  none_written id v (s ∷ rows) e =
      let rest = none_written id v rows (ground arith) in
      let miss : is_draft_at id v s ≡ false = ground arith in rw miss rest

  -- the conditional write of a draft, and then its periods
  rewritten_kept :
      (dto : UpdateRequest) (y : SchoolYear) (m : Semester) (o t sid : Uuid)
      → Ok (
          rewrite_stage c env ids dto y m o t sid >>= λ count.
          (require (not (count == 0)) version_conflict_error
            >> replace_periods c env ids sid dto.periods))
  unfolding rewrite_stage replace_periods ◌>>=◌
  rewritten_kept dto y m o t sid = record { at = λ w. record { kept = λ id st. go w id st } }
    where
      go :
          (w : World) (id : Uuid)
          → Settled id w.db.stages
          → let after =
              ((rewrite_stage c env ids dto y m o t sid >>= λ count.
              (require (not (count == 0)) version_conflict_error
                >> replace_periods c env ids sid dto.periods))
                w).1.db in
            Settled id after.stages
            × (periods_of_stage id after.periods ≡ periods_of_stage id w.db.periods)
      go w id st =
          let settled : Settled id
              (update_where (is_draft_at sid dto.version) (rewritten dto y m o t) w.db.stages) =
            Settled-update id (is_draft_at sid dto.version) (rewritten dto y m o t)
              (rewritten-StageStep dto y m o t sid dto.version) w.db.stages st in
          elim (Bool-cases (length (select (is_draft_at sid dto.version) w.db.stages) == 0)) [
            | inl none_found ↦ rw none_found (settled, refl)
            | inr some_found ↦
                let other : (sid == id) ≡ false = elim (Bool-cases (sid == id)) [
                  | inr n ↦ n
                  | inl y ↦
                      let same : sid ≡ id = ground arith in
                      let nothing = none_written id dto.version w.db.stages st.no_draft in
                      absurd (
                        let clash : (length (select (is_draft_at sid dto.version) w.db.stages) == 0)
                            ≡ true =
                          rw same nothing in
                        ground arith)
                ] in
                rw some_found (
                  settled,
                  periods-added ids.period sid id dto.periods
                        (delete_where (λ (p : StagePeriod). p.stage_id == sid) w.db.periods) other
                      ∙ periods-deleted sid id w.db.periods other,
                )
          ]

  update_body-PeriodsKept :
      (user_id stage_id : Uuid) (dto : UpdateRequest) (y : SchoolYear) (m : Semester)
      → Ok (update_body c env ids user_id stage_id dto y m)
  unfolding update_body
  update_body-PeriodsKept user_id stage_id dto y m =
      search
        (
          preserves_rules, PeriodsKept-preorder, resolve_organism_for_update-PeriodsKept,
          resolve_tutor_for_update-PeriodsKept, rewritten_kept,
        )
        depth 14

  pub update_draft-PeriodsKept :
      (user_id stage_id : Uuid) (dto : UpdateRequest)
      → Ok (update_draft c env ids user_id stage_id dto)
  unfolding update_draft
  update_draft-PeriodsKept user_id stage_id dto =
      search
        (
          preserves_rules,
          PeriodsKept-preorder,
          transaction-PeriodsKept order refuses unique env ids,
          update_body-PeriodsKept,
          get_by_id-PeriodsKept order refuses unique env ids,
        )
        depth 10
