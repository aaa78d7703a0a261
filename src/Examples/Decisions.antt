-- ===== src/Examples/Decisions.antt =====
-- The theorems on submissions and decisions, at the database of the fixtures.
use campus_internship.Prelude.{◌≡◌, refl, none, some, [], ◌∷◌, false, arith, text, text_eq}
use campus_internship.Shared.Enums.{l3}
use campus_internship.Api.Http.{ok, err}
use campus_internship.Api.Schema.{Stage, ReferentProfile}
use campus_internship.Api.World.{◌>>=◌}
use campus_internship.Api.Prisma.{find?, IsClient, reference-IsClient}
use campus_internship.Api.Prisma.Tables.{Keyed}
use campus_internship.Api.Snapshot.RoundTrip.{parse_stage_snapshot-json}
use campus_internship.Api.Stages.Read.{assigned_referent}
use campus_internship.Api.Stages.Decide.{
  Prepared, PendingStage, prepare_refusal, prepare_decision, find_pending_stage_or_throw,
  find_assigned_referent_or_throw, build_decision_snapshot, snapshot_candidate, refuse_stage,
  validated_with, decision_conflict, decision_write,
}
use campus_internship.Api.Stages.Decide.Concurrent.{by_refusal, second_decision_loses}
use campus_internship.Examples.Fixtures.{
  env, client, world, the_pending, the_admin, the_profile, the_student, the_referent_user,
  organism_input, tutor_input, day_2026, year_2025_accepted,
}

lawful : IsClient client
lawful = reference-IsClient (λ A before rows. rows) (λ A r rows. none)

ids_differ : Keyed (λ (s : Stage). s.id) world.db.stages
unfolding Keyed
ids_differ = (((λ e. omega arith), ((λ e. omega arith), tt)), (((λ e. omega arith), tt), (tt, tt)))

abbrev request : PendingStage
request = record {
  stage = the_pending;
  submitted_at = day_2026 2;
  organism = record { id = 20; input = organism_input };
  tutor = record { id = 30; input = tutor_input; organism_id = 20 };
  periods =
      record { id = 71; stage_id = 41; start_date = day_2026 50; end_date = day_2026 80 } ∷ [];
  student = the_profile;
  user = the_student;
  promotion = l3;
  service = text "APA";
  project_type = text "Adulte";
  motivation = text "Oui";
}

abbrev the_referent : ReferentProfile
the_referent = record { id = 60; user_id = 3; archived = false }

abbrev prepared : Prepared
prepared = record {
  request = request;
  referent = the_referent;
  referent_user = the_referent_user;
  snapshot = snapshot_candidate env request the_referent the_referent_user the_admin;
}

freezes :
    build_decision_snapshot env request the_referent the_referent_user the_admin
    ≡ some prepared.snapshot
unfolding build_decision_snapshot
freezes =
    parse_stage_snapshot-json env.is_datetime prepared.snapshot
      (record { school_year = year_2025_accepted; dates = ((refl, refl), tt); decided_at = refl })

reads_refusal : (prepare_refusal client env 41 the_admin world).0 ≡ ok prepared
unfolding prepare_decision find_pending_stage_or_throw find_assigned_referent_or_throw ◌>>=◌ find?
    assigned_referent text_eq
reads_refusal = rw freezes

second_decision_loses_example :
    let after = (refuse_stage client env 41 3 (text "Non") the_admin world).1 in
    decision_write client env 41 3 (validated_with env prepared.snapshot) after
    ≡ (err decision_conflict, after)
second_decision_loses_example =
    second_decision_loses client lawful env 41 the_admin world prepared env
      (validated_with env prepared.snapshot) ids_differ
      (refuse_stage client env 41 3 (text "Non") the_admin world).1
      (by_refusal (text "Non") reads_refusal)
