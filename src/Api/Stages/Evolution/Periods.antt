-- ===== src/Api/Stages/Evolution/Periods.antt =====
-- The periods of a stage that is no draft stay, whatever is written.
use campus_internship.Prelude.{
  ℕ, ◌+◌, ◌==◌, ◌≡◌, refl, ap, ◌∙◌, Bool, true, false, ◌&&◌, List, [], ◌∷◌, ◌++◌, any, select,
  length, arith, Bool-cases, inl, inr, if◌then◌else◌,
}
use mathlib.Core.List.{append-nil}
use campus_internship.Prelude.Sorting.{select-append}
use campus_internship.Prelude.Trim.{any-append}
use campus_internship.Shared.Enums.{draft, status_eq}
use campus_internship.Shared.StagePeriod.{Period}
use campus_internship.Api.Http.{Result, ok, err}
use campus_internship.Api.Schema.{Uuid, Stage, StagePeriod, Db}
use campus_internship.Api.World.{World, ◌>>=◌, write, try_write}
use campus_internship.Api.World.Preserves.{IsPreorder, Preserves}
use campus_internship.Api.Prisma.{update_where, delete_where}
use campus_internship.Api.Stages.Create.{period_rows}
use campus_internship.Api.Stages.Evolution.{StageStep, Forward-ne-draft}
use campus_internship.Api.Stages.Evolution.Writes.{OfOk}

-- there is a stage of that id, and no draft of it
pub record Settled (id : Uuid) (rows : List Stage) : Type 0 where
  pub present : any (λ (s : Stage). s.id == id) rows ≡ true
  pub no_draft : any (λ (s : Stage). (s.id == id) && status_eq s.status draft) rows ≡ false

abbrev pub periods_of_stage : Uuid → List StagePeriod → List StagePeriod
periods_of_stage id ps = select (λ (p : StagePeriod). p.stage_id == id) ps

pub record PeriodsKept (a b : Db) : Type 0 where
  pub kept :
      (id : Uuid)
      → Settled id a.stages
      → Settled id b.stages × (periods_of_stage id b.periods ≡ periods_of_stage id a.periods)

pub PeriodsKept-preorder : IsPreorder PeriodsKept
PeriodsKept-preorder = record {
  stay = λ a. record { kept = λ id h. (h, refl) };
  chain = λ a b c h k. record {
    kept = λ id s. let (t, e) = h.kept id s in let (u, f) = k.kept id t in (u, f ∙ e);
  };
}

test_step :
    (id : Uuid) (s t : Stage)
    → StageStep s t
    → ((s.id == id) && status_eq s.status draft) ≡ false
    → ((t.id == id) && status_eq t.status draft) ≡ false
test_step id s t step e = elim (Bool-cases (s.id == id)) [
  | inr f ↦ let same : t.id ≡ s.id = step.id in ground arith
  | inl y ↦
      let stays = Forward-ne-draft s.status t.status (λ d. ground arith) step.forward in
      ground arith
]

pub Settled-update :
    (id : Uuid) (p : Stage → Bool) (f : Stage → Stage)
    → ((s : Stage) → p s ≡ true → StageStep s (f s))
    → (rows : List Stage) → Settled id rows
    → Settled id (update_where p f rows)
unfolding update_where
Settled-update id p f h rows st = record {
  present = present rows ∙ st.present;
  no_draft = no_draft rows st.no_draft;
}
  where
    present :
        (xs : List Stage)
        → any (λ (s : Stage). s.id == id) (update_where p f xs) ≡ any (λ (s : Stage). s.id == id) xs
    present [] = refl
    present (s ∷ xs) = elim (Bool-cases (p s)) [
      | inl t ↦ rw (t, (h s t).id, present xs)
      | inr n ↦ rw (n, present xs)
    ]

    no_draft :
        (xs : List Stage)
        → any (λ (s : Stage). (s.id == id) && status_eq s.status draft) xs ≡ false
        → any (λ (s : Stage). (s.id == id) && status_eq s.status draft) (update_where p f xs)
          ≡ false
    no_draft [] e = refl
    no_draft (s ∷ xs) e =
        let rest = no_draft xs (ground arith) in
        elim (Bool-cases (p s)) [
          | inl t ↦ rw (t, test_step id s (f s) (h s t) (ground arith)) rest
          | inr n ↦ rw n (ground arith)
        ]

other_rows :
    (ids : ℕ → Uuid) (i : ℕ) (sid id : Uuid) (ps : List Period)
    → (sid == id) ≡ false
    → periods_of_stage id (period_rows ids i sid ps) ≡ []
unfolding period_rows
other_rows ids i sid id [] e = refl
other_rows ids i sid id (p ∷ ps) e = rw e (other_rows ids (i + 1) sid id ps e)

-- new periods of one stage leave those of another alone
pub periods-added :
    (ids : ℕ → Uuid) (sid id : Uuid) (ps : List Period) (rows : List StagePeriod)
    → (sid == id) ≡ false
    → periods_of_stage id (rows ++ period_rows ids 0 sid ps) ≡ periods_of_stage id rows
periods-added ids sid id ps rows e =
    select-append (λ (p : StagePeriod). p.stage_id == id) rows (period_rows ids 0 sid ps)
    ∙ ap (λ ys. periods_of_stage id rows ++ ys) (other_rows ids 0 sid id ps e)
    ∙ append-nil (periods_of_stage id rows)

pub periods-deleted :
    (sid id : Uuid) (rows : List StagePeriod)
    → (sid == id) ≡ false
    → periods_of_stage id (delete_where (λ (p : StagePeriod). p.stage_id == sid) rows)
      ≡ periods_of_stage id rows
unfolding delete_where
periods-deleted sid id [] e = refl
periods-deleted sid id (p ∷ rows) e = elim (Bool-cases (p.stage_id == sid)) [
  | inl t ↦
      let other : (p.stage_id == id) ≡ false = ground arith in
      rw (t, other) (periods-deleted sid id rows e)
  | inr n ↦
      rw n (ap (λ ys. if p.stage_id == id then p ∷ ys else ys) (periods-deleted sid id rows e))
]

-- a stage whose id is new
pub Settled-append :
    (id : Uuid) (s : Stage) (rows : List Stage)
    → (s.id == id) ≡ false
    → Settled id rows
    → Settled id (rows ++ s ∷ [])
Settled-append id s rows e st = record {
  present = any-append (λ (x : Stage). x.id == id) rows (s ∷ []) ∙ ground (arith, st.present);
  no_draft =
      any-append (λ (x : Stage). (x.id == id) && status_eq x.status draft) rows (s ∷ [])
      ∙ ground (arith, st.no_draft);
}

pub new_id :
    (id : Uuid) (s : Stage) (rows : List Stage)
    → any (λ (x : Stage). x.id == s.id) rows ≡ false
    → any (λ (x : Stage). x.id == id) rows ≡ true
    → (s.id == id) ≡ false
new_id id s [] e h = cc
new_id id s (x ∷ rows) e h = elim (Bool-cases (s.id == id)) [
  | inr n ↦ n
  | inl y ↦ elim (Bool-cases (x.id == id)) [
    | inl z ↦ ground arith
    | inr z ↦ new_id id s rows (ground arith) (ground arith)
  ]
]

-- writes of no stage and no period
pub write-PeriodsKept :
    {A : Type 0} (f : Db → A × Db)
    → ((db : Db) → (f db).1.stages ≡ db.stages)
    → ((db : Db) → (f db).1.periods ≡ db.periods)
    → Preserves PeriodsKept (write f)
unfolding ◌>>=◌
write-PeriodsKept f h k = record {
  at = λ w. record { kept = λ id st. (rw (h w.db) st, rw (k w.db) refl) };
}

pub update-PeriodsKept :
    (p : Stage → Bool) (f : Stage → Stage)
    → ((s : Stage) → p s ≡ true → StageStep s (f s))
    → Preserves PeriodsKept (
        write
          (λ db. (length (select p db.stages), record db { stages = update_where p f db.stages })))
unfolding ◌>>=◌
update-PeriodsKept p f h = record {
  at = λ w. record { kept = λ id st. (Settled-update id p f h w.db.stages st, refl) };
}

pub try_write-PeriodsKept :
    (f : Db → Result Db)
    → ((db : Db) → OfOk (PeriodsKept db) (f db))
    → Preserves PeriodsKept (try_write f)
unfolding ◌>>=◌
try_write-PeriodsKept f h = record { at = λ w. go w (f w.db) (h w.db) refl }
  where
    go :
        (w : World) (r : Result Db)
        → OfOk (PeriodsKept w.db) r
        → f w.db ≡ r
        → PeriodsKept w.db (try_write f w).1.db
    go w (ok db) k e = rw (e, try_write) k
    go w (err x) k e = rw (e, try_write) (PeriodsKept-preorder.stay w.db)
