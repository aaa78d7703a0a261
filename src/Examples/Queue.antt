-- ===== src/Examples/Queue.antt =====
-- The theorem on the admin's queue, with ids as strokes and a database that counts row by row.
use campus_internship.Prelude.{
  ℕ, zero, suc, ◌≡◌, ◌∙◌, refl, ap, false, any, none, some, List, [], ◌∷◌, map, All, arith, Text,
}
use campus_internship.Prelude.Sorting.{All-map, All-weaken}
use campus_internship.Api.Schema.{Uuid, Stage}
use campus_internship.Api.Prisma.{IsClient, reference-IsClient}
use campus_internship.Api.Referents.{Tuple, tuple_eq}
use campus_internship.Api.Referents.Table.{tuple_eq_refl}
use campus_internship.Api.Stages.Queue.{GroupBy, tuple_of_stage, queued, live_count}
use campus_internship.Api.Stages.Queue.Keys.{has_bar}
use campus_internship.Prelude.Selecting.{any_self, All-everywhere}
use campus_internship.Api.Stages.Queue.Counts.{IsGroupBy, count_of, live_of, live_count-queued}
use campus_internship.Examples.Fixtures.{client, world}

lawful : IsClient client
lawful = reference-IsClient (λ A before rows. rows) (λ A r rows. none)

abbrev strokes : Uuid → Text
strokes zero = []
strokes (suc n) = 48 ∷ strokes n

strokes_no_bar : (id : Uuid) → has_bar (strokes id) ≡ false
strokes_no_bar zero = refl
strokes_no_bar (suc n) = strokes_no_bar n

strokes_eq : (i j : Uuid) → strokes i ≡ strokes j → i ≡ j
strokes_eq zero zero e = refl
strokes_eq zero (suc j) e = cc
strokes_eq (suc i) zero e = cc
strokes_eq (suc i) (suc j) e = let rest : strokes i ≡ strokes j = cc in ap suc (strokes_eq i j rest)

-- a group for each row
abbrev group_rows : GroupBy
group_rows rows = map (λ (s : Stage). (tuple_of_stage s, count_of (tuple_of_stage s) rows)) rows

any-groups :
    (k : Tuple) (n : Tuple → ℕ) (rows : List Stage)
    → any
        (λ (g : Tuple × ℕ). tuple_eq g.0 k)
        (map (λ (s : Stage). (tuple_of_stage s, n (tuple_of_stage s))) rows)
      ≡ any (λ (s : Stage). tuple_eq (tuple_of_stage s) k) rows
any-groups k n [] = refl
any-groups k n (s ∷ rows) = ground (arith, any-groups k n rows)

group_rows-IsGroupBy : IsGroupBy group_rows
group_rows-IsGroupBy = record {
  counts = λ rows.
      All-map {P = λ s. Unit} _
        (λ (s : Stage). (tuple_of_stage s, count_of (tuple_of_stage s) rows)) (λ s u. refl) rows
        (All-everywhere (λ s. tt) rows);
  covers = λ rows.
      All-weaken (λ s h. any-groups (tuple_of_stage s) (λ k. count_of k rows) rows ∙ h) rows
        (any_self (λ (t s : Stage). tuple_eq (tuple_of_stage t) (tuple_of_stage s))
          (λ s. tuple_eq_refl (tuple_of_stage s)) rows);
}

live_count-queued_example :
    All
      (λ s.
        live_count client group_rows strokes world.db s
        ≡ some (live_of (tuple_of_stage s) world.db.stages))
      (queued client group_rows strokes world.db)
live_count-queued_example =
    live_count-queued strokes strokes_no_bar strokes_eq client lawful group_rows
      group_rows-IsGroupBy (λ A r rows p. refl) world.db
