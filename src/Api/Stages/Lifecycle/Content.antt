-- ===== src/Api/Stages/Lifecycle/Content.antt =====
-- What the student submitted: the columns that the wizard writes, and the periods of the stage.
use mathlib.Core.Path.{subst}
use campus_internship.Prelude.{
  ◌≤◌, ◌==◌, ◌≡◌, ◌≢◌, refl, Bool, false, ◌&&◌, Option, none, some, List, [], ◌∷◌, any, All, arith,
  Bool-cases, inl, inr,
}
use campus_internship.Shared.Enums.{draft, status_eq}
use campus_internship.Api.Http.{PrismaCode}
use campus_internship.Api.Schema.{Uuid, Stage}
use campus_internship.Api.World.{World}
use campus_internship.Api.Prisma.{Client, IsClient, IsClient-eq, reference, find?}
use campus_internship.Api.Prisma.Tables.{Keyed}
use campus_internship.Api.Stages.Evolution.{content}
use campus_internship.Api.Stages.Evolution.Periods.{
  Settled, periods_of_stage, PeriodsKept, PeriodsKept-preorder,
}
use campus_internship.Api.Stages.Evolution.Keeping.{
  create_draft-PeriodsKept, duplicate-PeriodsKept, submit_write-PeriodsKept,
  refusal_write-PeriodsKept, validation_write-PeriodsKept,
}
use campus_internship.Api.Stages.Evolution.Redrafts.{update_draft-PeriodsKept}
use campus_internship.Api.Stages.Lifecycle.{
  Step, Reach, here, next, created, duplicated, updated, submitted, refused, validated, elsewhere,
  stage_of, no_ids, content_kept,
}

-- what writes no stage writes no period either
abbrev pub Untouched : {c : Client} {w w' : World} → Step c w w' → Type 0
Untouched (created env ids user_id dto w) = Unit
Untouched (duplicated env ids user_id source_id w) = Unit
Untouched (updated env ids user_id stage_id dto w) = Unit
Untouched (submitted env read w) = Unit
Untouched (refused env id version snapshot reason w) = Unit
Untouched (validated env id version snapshot w) = Unit
Untouched (elsewhere w w' e) = w'.db.periods ≡ w.db.periods

abbrev pub AllUntouched : {c : Client} {w w' : World} → Reach c w w' → Type 0
AllUntouched here = Unit
AllUntouched (next before s) = AllUntouched before × Untouched s

-- the primary key of the stages: the database refuses a second stage of an id
abbrev pub HasPrimaryKey : Client → Type 0
HasPrimaryKey c =
    (s : Stage) (rows : List Stage)
    → c.insert_fails Stage s rows ≡ none
    → any (λ (x : Stage). x.id == s.id) rows ≡ false

module _ (o : (A : Type 0) → (A → A → Bool) → List A → List A)
    (r : (A : Type 0) → A → List A → Option PrismaCode)
    (unique : HasPrimaryKey (reference o r)) where
  Step-PeriodsKept :
      {w w' : World} (s : Step (reference o r) w w') → Untouched s → PeriodsKept w.db w'.db
  Step-PeriodsKept (created env ids user_id dto w) h =
      (create_draft-PeriodsKept o r unique env ids user_id dto).at w
  Step-PeriodsKept (duplicated env ids user_id source_id w) h =
      (duplicate-PeriodsKept o r unique env ids user_id source_id).at w
  Step-PeriodsKept (updated env ids user_id stage_id dto w) h =
      (update_draft-PeriodsKept o r unique env ids user_id stage_id dto).at w
  Step-PeriodsKept (submitted env read w) h =
      (submit_write-PeriodsKept o r unique env no_ids read).at w
  Step-PeriodsKept (refused env id version snapshot reason w) h =
      (refusal_write-PeriodsKept o r unique env no_ids id version snapshot reason).at w
  Step-PeriodsKept (validated env id version snapshot w) h =
      (validation_write-PeriodsKept o r unique env no_ids id version snapshot).at w
  Step-PeriodsKept (elsewhere w w' e) h = record { kept = λ id st. (rw e st, rw h refl) }

  Reach-PeriodsKept-reference :
      {w w' : World} (run : Reach (reference o r) w w') → AllUntouched run → PeriodsKept w.db w'.db
  Reach-PeriodsKept-reference {w} here h = PeriodsKept-preorder.stay w.db
  Reach-PeriodsKept-reference {w} {w'} (next {u} before s) h =
      PeriodsKept-preorder.chain w.db u.db w'.db (Reach-PeriodsKept-reference before h.0)
        (Step-PeriodsKept s h.1)

Reach-PeriodsKept :
    (c : Client)
    → IsClient c
    → HasPrimaryKey c
    → (w w' : World) (run : Reach c w w') → AllUntouched run
    → PeriodsKept w.db w'.db
Reach-PeriodsKept c law unique w w' run h =
    let (run', h') =
      subst (λ k. (x : Reach k w w') × AllUntouched x) (IsClient-eq c law) (run, h) in
    Reach-PeriodsKept-reference c.order_by c.insert_fails unique run' h'

-- where the ids differ, the stage that is found is the only one of its id
no_more :
    (id : Uuid) (s : Stage) (rows : List Stage)
    → s.id ≡ id
    → All (λ (x : Stage). x.id ≢ s.id) rows
    → any (λ (x : Stage). (x.id == id) && status_eq x.status draft) rows ≡ false
no_more id s [] e h = refl
no_more id s (x ∷ rows) e h =
    let rest = no_more id s rows e h.1 in
    let other : (x.id == id) ≡ false = elim (Bool-cases (x.id == id)) [
      | inl y ↦ let same : x.id ≡ s.id = ground arith in absurd (h.0 same)
      | inr n ↦ n
    ] in
    rw (other, rest)

found-Settled :
    (id : Uuid) (rows : List Stage) (s : Stage)
    → Keyed (λ (x : Stage). x.id) rows
    → find? (λ (x : Stage). x.id == id) rows ≡ some s
    → s.status ≢ draft
    → Settled id rows
unfolding Keyed find?
found-Settled id [] s keyed e d = cc
found-Settled id (x ∷ rows) s keyed e d = elim (Bool-cases (x.id == id)) [
  | inl y ↦
      let is_s : x ≡ s = ground arith in
      let not_draft : status_eq x.status draft ≡ false =
        elim (Bool-cases (status_eq x.status draft)) [
          | inl t ↦ let same : x.status ≡ draft = ground arith in absurd (d (rw (← is_s) same))
          | inr n ↦ n
        ] in
      record {
        present = rw y refl;
        no_draft = rw (y, not_draft) (no_more id x rows (ground arith) keyed.0);
      }
  | inr n ↦
      let rest = found-Settled id rows s keyed.1 (ground arith) d in
      record { present = rw n rest.present; no_draft = rw n rest.no_draft }
]

module _ (c : Client) (law : IsClient c) (w w' : World) (run : Reach c w w') where
  -- Where the ids of the stages differ, the database refuses a second stage of an id, and what writes
  -- no stage writes no period: whatever requests are served in between, a stage that is no draft
  -- keeps the columns of its row that the wizard writes and the rows of its periods, is never a
  -- draft again, and its version never falls.
  pub submitted_content_kept :
      (id : Uuid) (s t : Stage)
      → Keyed (λ (x : Stage). x.id) w.db.stages
      → HasPrimaryKey c
      → AllUntouched run
      → stage_of id w ≡ some s
      → stage_of id w' ≡ some t
      → s.status ≢ draft
      → (content t ≡ content s)
        × (periods_of_stage id w'.db.periods ≡ periods_of_stage id w.db.periods)
        × (t.status ≢ draft)
        × (s.version ≤ t.version)
  submitted_content_kept id s t keyed unique untouched e f d =
      let (same, no_draft, newer) = content_kept c law w w' run id s t e f d in
      let kept = Reach-PeriodsKept c law unique w w' run untouched in
      let (settled, periods) = kept.kept id (found-Settled id w.db.stages s keyed e d) in
      (same, periods, no_draft, newer)
