-- ===== src/Api/Stages/Evolution/Writes.antt =====
-- Statements and transactions that let the stages evolve.
use campus_internship.Prelude.{
  ◌≡◌, refl, Bool, true, Option, none, some, List, arith, length, select,
}
use campus_internship.Api.Http.{Result, ok, err, PrismaCode}
use campus_internship.Api.Schema.{Stage, Db}
use campus_internship.Api.World.{World, Env, Email, M, write, try_write, map_result, ◌>>=◌}
use campus_internship.Api.World.Preserves.{Preserves}
use campus_internship.Api.Prisma.{Client, reference, update_where, created, keep_on_success}
use campus_internship.Api.Mailer.{send_safely}
use campus_internship.Api.Stages.Evolution.{StageStep}
use campus_internship.Api.Stages.Evolution.Rows.{
  Evolves, Evolves-refl, Evolves-update, StagesEvolve, StagesEvolve-preorder,
}

-- writes that leave the stages alone
pub write-StagesEvolve :
    {A : Type 0} (f : Db → A × Db)
    → ((db : Db) → (f db).1.stages ≡ db.stages)
    → Preserves StagesEvolve (write f)
unfolding ◌>>=◌
write-StagesEvolve f h = record {
  at = λ w. record { rows = rw (h w.db) (Evolves-refl w.db.stages) };
}

-- conditional writes of stages
pub update-StagesEvolve :
    (p : Stage → Bool) (f : Stage → Stage)
    → ((s : Stage) → p s ≡ true → StageStep s (f s))
    → Preserves StagesEvolve (
        write
          (λ db. (length (select p db.stages), record db { stages = update_where p f db.stages })))
unfolding ◌>>=◌
update-StagesEvolve p f h = record { at = λ w. record { rows = Evolves-update p f w.db.stages h } }

abbrev pub OfOk : {A : Type 0} → (A → Type 0) → Result A → Type 0
OfOk P (ok a) = P a
OfOk P (err e) = Unit

pub try_write-StagesEvolve :
    (f : Db → Result Db)
    → ((db : Db) → OfOk (λ db'. Evolves db.stages db'.stages) (f db))
    → Preserves StagesEvolve (try_write f)
unfolding ◌>>=◌
try_write-StagesEvolve f h = record { at = λ w. record { rows = go w (f w.db) (h w.db) refl } }
  where
    go :
        (w : World) (r : Result Db)
        → OfOk (λ db'. Evolves w.db.stages db'.stages) r
        → f w.db ≡ r
        → Evolves w.db.stages (try_write f w).1.db.stages
    go w (ok db) k e = rw (e, try_write) k
    go w (err x) k e = rw (e, try_write) (Evolves-refl w.db.stages)

pub created-OfOk :
    {A : Type 0} (P : Db → Type 0) (o : Option PrismaCode) (rows : List A) (g : List A → Db)
    → P (g rows)
    → OfOk P (map_result g (created o rows))
created-OfOk P none rows g h = h
created-OfOk P (some x) rows g h = tt

module _ (order : (A : Type 0) → (A → A → Bool) → List A → List A)
    (refuses : (A : Type 0) → A → List A → Option PrismaCode) (env : Env) where
  abbrev pub c : Client
  c = reference order refuses

  abbrev pub Ok : {A : Type 0} → M A → Type 0
  Ok m = Preserves StagesEvolve m

  pub transaction-StagesEvolve : {A : Type 0} (m : M A) → Ok m → Ok (c.transaction A m)
  transaction-StagesEvolve {A} m h = record { at = λ w. go w (m w).0 (m w).1 (h.at w) }
    where
      go :
          (w : World) (r : Result A) (w' : World)
          → StagesEvolve w.db w'.db
          → StagesEvolve w.db (keep_on_success w r w').1.db
      go w (ok a) w' s = s
      go w (err e) w' s = StagesEvolve-preorder.stay w.db

  pub send_safely-StagesEvolve : (email : Email) → Ok (send_safely env email)
  unfolding send_safely ◌>>=◌
  send_safely-StagesEvolve email = record {
    at = λ w. ground (arith, StagesEvolve-preorder.stay w.db);
  }
