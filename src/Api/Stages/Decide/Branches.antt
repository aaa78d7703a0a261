-- ===== src/Api/Stages/Decide/Branches.antt =====
-- What a decision reads, its conditional write on each branch, and the course that a refusal and a
-- validation share.
use mathlib.Core.Path.{subst}
use campus_internship.Prelude.{ℕ, ◌≡◌, ◌≢◌, refl, sym, ap, ◌∙◌, ◌==◌, String, true, some, arith}
use campus_internship.Shared.Enums.{pending}
use campus_internship.Api.Http.{ok, err}
use campus_internship.Api.Schema.{Uuid, Stage, ReferentProfile, User, Db}
use campus_internship.Api.World.{World, Env, M, ◌>>=◌, pure}
use campus_internship.Api.World.ReadOnly.{ReadOnly, ReadOnly-pure, bind-ok, bind-err, bind-ReadOnly}
use campus_internship.Api.Prisma.{Client, IsClient, find?, update_where}
use campus_internship.Api.Prisma.Tables.{Keyed, find?_test, select-found, select-missed}
use campus_internship.Api.Snapshot.{Snapshot, parse_stage_snapshot, snapshot_json}
use campus_internship.Api.Snapshot.RoundTrip.{
  parse_stage_snapshot-json, parse_stage_snapshot-IsSound,
}
use campus_internship.Api.Stages.Decide.{
  DecidingAdmin, DecisionResponse, Prepared, PendingStage, build_decision_snapshot, is_pending_at,
  decision_conflict, find_pending_stage_or_throw, find_assigned_referent_or_throw, prepare_decision,
  decision_write,
}

-- what a decision has read, against the database it read
pub record Reads (c : Client) (env : Env) (id : Uuid) (admin : DecidingAdmin) (db : Db)
    (p : Prepared) : Type 0 where
  pub found : c.find_first Stage (λ s. s.id == id) db.stages ≡ some p.request.stage
  pub is_pending : p.request.stage.status ≡ pending
  pub froze :
      build_decision_snapshot env p.request p.referent p.referent_user admin ≡ some p.snapshot

module _ (c : Client) (env : Env) (id : Uuid) (admin : DecidingAdmin) (m n : String)
    (w : World) where
  pub prepare_decision-Reads :
      (p : Prepared)
      → (prepare_decision c env id m n admin w).0 ≡ ok p
      → Reads c env id admin w.db p
  unfolding prepare_decision find_pending_stage_or_throw find_assigned_referent_or_throw ◌>>=◌
  prepare_decision-Reads p e = record {
    found = ground arith;
    is_pending = ground arith;
    froze = ground arith;
  }

  -- the reading part of a decision changes nothing
  prepare_decision-still :
      (p : Prepared)
      → (prepare_decision c env id m n admin w).0 ≡ ok p
      → prepare_decision c env id m n admin w ≡ (ok p, w)
  unfolding prepare_decision find_pending_stage_or_throw find_assigned_referent_or_throw ◌>>=◌
  prepare_decision-still p e = ground arith

-- the snapshot that a decision writes reads back
pub reads_back :
    (env : Env) (r : PendingStage) (f : ReferentProfile) (u : User) (admin : DecidingAdmin)
    (t : Snapshot)
    → build_decision_snapshot env r f u admin ≡ some t
    → parse_stage_snapshot env.is_datetime (some (snapshot_json t)) (some 1) ≡ some t
unfolding build_decision_snapshot
reads_back env r f u admin t e =
    parse_stage_snapshot-json env.is_datetime t
      (parse_stage_snapshot-IsSound env.is_datetime _ _ t e)

abbrev pub decided_rows : (Stage → Stage) → Uuid → ℕ → World → World
decided_rows data_of id version w = record w {
  db = record w.db { stages = update_where (is_pending_at id version) data_of w.db.stages };
}

module _ (c : Client) (law : IsClient c) (env : Env) (id : Uuid) (version : ℕ)
    (data_of : Stage → Stage) (w : World) (s : Stage)
    (found : find? (λ x. x.id == id) w.db.stages ≡ some s) where
  decision_write_ok :
      s.status ≡ pending
      → s.version ≡ version
      → decision_write c env id version data_of w ≡ (ok tt, decided_rows data_of id version w)
  unfolding decision_write ◌>>=◌
  decision_write_ok st v =
      let is_id : (s.id == id) ≡ true = find?_test (λ x. x.id == id) w.db.stages s found in
      let one = select-found _ (is_pending_at id version) w.db.stages s found (ground arith) in
      rw (law.update_many_lem Stage (is_pending_at id version) data_of w.db.stages, one)

  pub decision_write_stale :
      Keyed (λ x. x.id) w.db.stages
      → s.version ≢ version
      → decision_write c env id version data_of w ≡ (err decision_conflict, w)
  unfolding decision_write ◌>>=◌
  decision_write_stale keyed v =
      let (nothing, same) =
        select-missed (λ x. x.id) (is_pending_at id version) data_of id (λ x t. ground arith)
          w.db.stages s keyed found (ground arith) in
      rw (law.update_many_lem Stage (is_pending_at id version) data_of w.db.stages, nothing, same)

module _ (c : Client) (law : IsClient c) (env : Env) (id : Uuid) (admin : DecidingAdmin) (w : World)
    (p : Prepared) where
  pub found_reference :
      Reads c env id admin w.db p
      → (find? (λ x. x.id == p.request.stage.id) w.db.stages ≡ some p.request.stage)
        × (p.request.stage.id ≡ id)
  found_reference r =
      let found : find? (λ x. x.id == id) w.db.stages ≡ some p.request.stage =
        sym (law.find_first_lem Stage (λ x. x.id == id) w.db.stages) ∙ r.found in
      let is_id : (p.request.stage.id == id) ≡ true =
        find?_test (λ x. x.id == id) w.db.stages p.request.stage found in
      let same : p.request.stage.id ≡ id = ground arith in
      (
        subst (λ k. find? (λ x. x.id == k) w.db.stages ≡ some p.request.stage) (sym same) found,
        same,
      )

  module _ (notify : Prepared → M (Unit {0})) (quiet : (v : World) → (notify p v).0 ≡ ok tt)
      (reading : ReadOnly (notify p)) (data_of : Prepared → Stage → Stage)
      (answer : Prepared → DecisionResponse) (m n : String)
      (read : (prepare_decision c env id m n admin w).0 ≡ ok p)
      (keeps : (s : Stage) → (data_of p s).id ≡ s.id) where
    -- the two decisions, which differ in the data, the email and the answer
    abbrev pub decide : ℕ → M DecisionResponse
    decide version = prepare_decision c env id m n admin >>= λ q.
        (decision_write c env q.request.stage.id version (data_of q) >>= λ u.
        (notify q >>= λ t. pure (answer q)))

    pure_answer : (v : World) → (pure (answer p) v).0 ≡ ok (answer p)
    unfolding ◌>>=◌
    pure_answer v = refl

    pub decide_accepted :
        ((decide p.request.stage.version w).0 ≡ ok (answer p))
        × ((decide p.request.stage.version w).1.db
            ≡ (decided_rows (data_of p) id p.request.stage.version w).db)
    decide_accepted =
        let r = prepare_decision-Reads c env id admin m n w p read in
        let (found, same) = found_reference r in
        let v = decided_rows (data_of p) p.request.stage.id p.request.stage.version w in
        let prepared = prepare_decision-still c env id admin m n w p read in
        let (answered, kept) =
          bind-ReadOnly (notify p) (λ t. pure (answer p)) tt v reading (ReadOnly-pure (answer p))
            (quiet v) in
        let whole : decide p.request.stage.version w ≡ (notify p >>= λ t. pure (answer p)) v =
          bind-ok _ _ p w w prepared
          ∙ bind-ok _ _ tt w v (
              decision_write_ok c law env p.request.stage.id p.request.stage.version (data_of p) w
                p.request.stage found r.is_pending refl) in
        let same_db : v.db ≡ (decided_rows (data_of p) id p.request.stage.version w).db =
          ap (λ k. (decided_rows (data_of p) k p.request.stage.version w).db) same in
        (ap (λ x. x.0) whole ∙ answered ∙ pure_answer v, ap (λ x. x.1.db) whole ∙ kept ∙ same_db)

    pub decide_stale :
        (version : ℕ)
        → Keyed (λ x. x.id) w.db.stages
        → p.request.stage.version ≢ version
        → ((decide version w).0 ≡ err decision_conflict) × ((decide version w).1.db ≡ w.db)
    decide_stale version keyed v =
        let r = prepare_decision-Reads c env id admin m n w p read in
        let (found, same) = found_reference r in
        let prepared = prepare_decision-still c env id admin m n w p read in
        let whole : decide version w ≡ (err decision_conflict, w) =
          bind-ok _ _ p w w prepared
          ∙ bind-err _ _ decision_conflict w w (
              decision_write_stale c law env p.request.stage.id version (data_of p) w
                p.request.stage found keyed v) in
        (ap (λ x. x.0) whole, ap (λ x. x.1.db) whole)
