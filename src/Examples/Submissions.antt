-- ===== src/Examples/Submissions.antt =====
-- The theorems on `submit`, at the database of the fixtures.
use mathlib.Core.Option
use campus_internship.Prelude.{◌≡◌, ◌≢◌, ◌∙◌, ap, []}
use campus_internship.Shared.Submission.{get_submission_blockers}
use campus_internship.Api.Http.{Error, err}
use campus_internship.Api.World.{World}
use campus_internship.Api.Prisma.{find?}
use campus_internship.Api.Stages.Submit.{submit, candidate_of, profile_of}
use campus_internship.Api.Stages.Submit.Laws.{Submittable, submit_refused}
use campus_internship.Examples.Fixtures.{env, client, world, the_draft, the_profile}

abbrev no_tutor : World
no_tutor = record world { db = record world.db { tutors = [] } }

tutor_missing :
    get_submission_blockers (candidate_of client env the_draft the_profile no_tutor.db) env.now ≢ []
unfolding get_submission_blockers find?
tutor_missing e = cc e

without_tutor : ¬ Submittable client env 1 40 no_tutor
unfolding find?
without_tutor x =
    let stage : the_draft ≡ x.stage = ap (λ o. Option.get_or o the_draft) x.owned in
    let profile : the_profile ≡ x.profile =
      ap (λ s. Option.get_or (profile_of client env s no_tutor.db) the_profile) stage
      ∙ ap (λ o. Option.get_or o the_profile) x.student in
    tutor_missing (
      ap (λ s. get_submission_blockers (candidate_of client env s the_profile no_tutor.db) env.now)
        stage
      ∙ ap (λ p. get_submission_blockers (candidate_of client env x.stage p no_tutor.db) env.now)
          profile
      ∙ x.accepted)

submit_refused_example : (e : Error) × (submit client env 1 40 no_tutor ≡ (err e, no_tutor))
submit_refused_example = submit_refused client env 1 40 no_tutor without_tutor
