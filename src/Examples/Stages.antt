-- ===== src/Examples/Stages.antt =====
-- The theorems on the requests, at the database of the fixtures.
use campus_internship.Prelude.{◌≤◌, ◌≡◌, ◌≢◌, refl, none, some, arith, List, Option}
use campus_internship.Shared.Enums.{draft}
use campus_internship.Api.Schema.{Stage}
use campus_internship.Api.World.{World, ◌>>=◌}
use campus_internship.Api.Prisma.{
  Client, reference, reference-IsClient, find?, update_where, IsClient,
}
use campus_internship.Api.Stages.Submit.{submit_write}
use campus_internship.Api.Stages.Evolution.{StageStep, content}
use campus_internship.Api.Stages.Lifecycle.{
  Reach, here, next, Step, stage_of, stage_persists, decided_stage_frozen, version_guards_stage,
}
use campus_internship.Api.Stages.Lifecycle.Content.{submitted_content_kept}
use campus_internship.Api.Stages.Evolution.Periods.{periods_of_stage}
use campus_internship.Api.Prisma.Tables.{Keyed}
use campus_internship.Api.Http.{PrismaCode, p2002}
use campus_internship.Examples.Fixtures.{env, client, world, the_draft, the_pending, the_validated}

lawful : IsClient client
lawful = reference-IsClient (λ A before rows. rows) (λ A r rows. none)

abbrev after_submission : World
after_submission = (submit_write client env the_draft world).1

submission : Reach client world after_submission
submission = next here (Step.submitted env the_draft world)

pending_stays : stage_of 41 after_submission ≡ some the_pending
unfolding find? submit_write ◌>>=◌ update_where
pending_stays = refl

stage_persists_example :
    (t : Stage) × (stage_of 40 after_submission ≡ some t) × StageStep the_draft t
unfolding find?
stage_persists_example =
    stage_persists client lawful world after_submission submission 40 the_draft refl

decided_stage_frozen_example : stage_of 42 after_submission ≡ some the_validated
unfolding find?
decided_stage_frozen_example =
    decided_stage_frozen client lawful world after_submission submission 42 the_validated refl refl

version_guards_stage_example : the_pending ≡ the_pending
unfolding find?
version_guards_stage_example =
    version_guards_stage client lawful world after_submission submission 41 the_pending the_pending
      refl pending_stays refl

ids_differ : Keyed (λ (s : Stage). s.id) world.db.stages
unfolding Keyed
ids_differ = (((λ e. omega arith), ((λ e. omega arith), tt)), (((λ e. omega arith), tt), (tt, tt)))

-- a database that inserts nothing has the primary key too
abbrev refuses_twice : (A : Type 0) → A → List A → Option PrismaCode
refuses_twice A r rows = some p2002

abbrev keyed_client : Client
keyed_client = reference (λ A before rows. rows) refuses_twice

abbrev kept_after : World
kept_after = (submit_write keyed_client env the_draft world).1

abbrev kept_run : Reach keyed_client world kept_after
kept_run = next here (Step.submitted env the_draft world)

still_pending : stage_of 41 kept_after ≡ some the_pending
unfolding find? submit_write ◌>>=◌ update_where
still_pending = refl

submitted_content_kept_example :
    (content the_pending ≡ content the_pending)
    × (periods_of_stage 41 kept_after.db.periods ≡ periods_of_stage 41 world.db.periods)
    × (the_pending.status ≢ draft)
    × (the_pending.version ≤ the_pending.version)
unfolding find?
submitted_content_kept_example =
    submitted_content_kept keyed_client (reference-IsClient (λ A before rows. rows) refuses_twice)
      world kept_after kept_run 41 the_pending the_pending ids_differ (λ s rows e. cc e) (tt, tt)
      refl still_pending (λ e. cc e)
