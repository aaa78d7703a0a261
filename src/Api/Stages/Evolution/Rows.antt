-- ===== src/Api/Stages/Evolution/Rows.antt =====
-- The evolution of the whole table: rows step one by one, and new ones come after them.
use campus_internship.Prelude.{◌≡◌, Bool, true, List, [], ◌∷◌, ◌++◌, Bool-cases, inl, inr}
use campus_internship.Api.Schema.{Stage, Db}
use campus_internship.Api.World.Preserves.{IsPreorder}
use campus_internship.Api.Prisma.{update_where}
use campus_internship.Api.Stages.Evolution.{StageStep, StageStep-refl, StageStep-trans}

abbrev pub Evolves : List Stage → List Stage → Type 0
Evolves [] new = Unit
Evolves (s ∷ old) [] = ⊥
Evolves (s ∷ old) (t ∷ new) = StageStep s t × Evolves old new

pub Evolves-refl : (rows : List Stage) → Evolves rows rows
Evolves-refl [] = tt
Evolves-refl (s ∷ rows) = (StageStep-refl s, Evolves-refl rows)

pub Evolves-trans : (a b c : List Stage) → Evolves a b → Evolves b c → Evolves a c
Evolves-trans [] b c h k = tt
Evolves-trans (s ∷ a) [] c h k = absurd h
Evolves-trans (s ∷ a) (t ∷ b) [] h k = absurd k
Evolves-trans (s ∷ a) (t ∷ b) (u ∷ c) h k = (StageStep-trans h.0 k.0, Evolves-trans a b c h.1 k.1)

pub Evolves-append : (rows new : List Stage) → Evolves rows (rows ++ new)
Evolves-append [] new = tt
Evolves-append (s ∷ rows) new = (StageStep-refl s, Evolves-append rows new)

pub Evolves-update :
    (p : Stage → Bool) (f : Stage → Stage) (rows : List Stage)
    → ((s : Stage) → p s ≡ true → StageStep s (f s))
    → Evolves rows (update_where p f rows)
unfolding update_where
Evolves-update p f [] h = tt
Evolves-update p f (s ∷ rows) h = (
  elim (Bool-cases (p s)) [ inl e ↦ rw e (h s e) | inr e ↦ rw e (StageStep-refl s) ],
  Evolves-update p f rows h,
)

-- of the database, the stages
pub record StagesEvolve (a b : Db) : Type 0 where
  pub rows : Evolves a.stages b.stages

pub StagesEvolve-preorder : IsPreorder StagesEvolve
StagesEvolve-preorder = record {
  stay = λ a. record { rows = Evolves-refl a.stages };
  chain = λ a b c h k. record { rows = Evolves-trans a.stages b.stages c.stages h.rows k.rows };
}
