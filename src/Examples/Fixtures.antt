-- ===== src/Examples/Fixtures.antt =====
-- A database with a student, an admin, a referent and three requests, and a client that computes.
use mathlib.Core.Path.{subst}
use campus_internship.Prelude.{
  ℕ, ◌≡◌, refl, arith, ◌+◌, ◌*◌, true, false, none, some, [], ◌∷◌, text,
}
use campus_internship.Shared.Enums.{
  student, admin, referent, s1, s2, draft, pending, validated, valid, l3,
}
use campus_internship.Shared.Calendar.{Date, ms_per_day}
use campus_internship.Shared.SchoolYear.{school_year_of, school_year_schema}
use campus_internship.Shared.SchoolYear.Decimal.{show_four}
use campus_internship.Shared.SchoolYear.Format.{school_year_schema-school_year_of}
use campus_internship.Shared.StagePeriod.{Period}
use campus_internship.Api.Schema.{User, StudentProfile, OrganismInput, TutorInput, Stage, Db}
use campus_internship.Api.World.{World, Env}
use campus_internship.Api.Prisma.{Client, reference}
use campus_internship.Api.Snapshot.{Snapshot, snapshot_json}
use campus_internship.Api.Stages.Resolve.{Ids}
use campus_internship.Api.Stages.Decide.{DecidingAdmin}

-- the n-th day of 2026, from 0
abbrev pub day_2026 : ℕ → Date
day_2026 n = (739982 + n) * ms_per_day

abbrev pub env : Env
env = record {
  now = day_2026 40;
  to_iso_string = λ d. d ∷ [];
  is_datetime = λ s. true;
  to_upper_case = λ s. s;
  deliver = λ e. true;
}

abbrev pub ids : Ids
ids = record { organism = 200; tutor = 300; stage = 400; period = λ i. 500 + i }

-- rows in the order of the table, and no insertion refused
abbrev pub client : Client
client = reference (λ A before rows. rows) (λ A r rows. none)

abbrev pub the_period : Period
the_period = record { start_date = day_2026 50; end_date = day_2026 80 }

abbrev pub organism_input : OrganismInput
organism_input = record {
  name = text "Clinique";
  structure_type = text "Public";
  city = text "Paris";
  postal_code = text "75001";
  street = text "1 rue A";
}

abbrev pub tutor_input : TutorInput
tutor_input = record {
  first_name = text "Ana";
  last_name = text "Roy";
  email = text "a@b.fr";
  job_title = text "Kine";
  phone = none;
  accepts_phone_contact = false;
}

abbrev pub the_draft : Stage
the_draft = record {
  id = 40;
  status = draft;
  school_year = text "2025-2026";
  semester = s2;
  mandatory = true;
  service = some (text "APA");
  project_type = some (text "Adulte");
  motivation = some (text "Oui");
  refusal_reason = none;
  submitted_at = none;
  student_id = 10;
  organism_id = some 20;
  tutor_id = some 30;
  snapshot = none;
  snapshot_version = none;
  decided_at = none;
  parent_stage_id = none;
  version = 2;
  created_at = day_2026 1;
}

abbrev pub the_pending : Stage
the_pending = record the_draft {
  id = 41;
  status = pending;
  submitted_at = some (day_2026 2);
  version = 3;
}

abbrev pub the_snapshot : Snapshot
the_snapshot = record {
  school_year = text "2025-2026";
  semester = s1;
  mandatory = true;
  service = some (text "APA");
  project_type = some (text "Adulte");
  motivation = some (text "Oui");
  organism = record { id = 20; input = organism_input };
  tutor = record { id = 30; input = tutor_input };
  periods = [];
  referent = record { id = 60; first_name = text "Zoe"; last_name = text "Bel" };
  promotion = l3;
  decided_at = text "2026";
  decided_by = record { id = 2; first_name = text "Eve"; last_name = text "Lam"; title = text "R" };
}

abbrev pub the_validated : Stage
the_validated = record the_draft {
  id = 42;
  status = validated;
  submitted_at = some (day_2026 2);
  snapshot = some (snapshot_json the_snapshot);
  snapshot_version = some 1;
  decided_at = some (day_2026 3);
  version = 5;
}

abbrev pub the_profile : StudentProfile
the_profile = record {
  id = 10;
  user_id = 1;
  phone = none;
  personal_email = some (text "p@q.fr");
  promotion = some l3;
  profile_status = valid;
  profile_year = some (text "2025-2026");
  refusal_reason = none;
  updated_at = day_2026 1;
}

abbrev pub the_student : User
the_student = record {
  id = 1;
  email = text "s@etu.u-paris.fr";
  password_hash = text "h";
  first_name = text "Lea";
  last_name = text "Nom";
  roles = student ∷ [];
}

abbrev pub the_admin_user : User
the_admin_user = record {
  id = 2;
  email = text "a@u.fr";
  password_hash = text "h";
  first_name = text "Eve";
  last_name = text "Lam";
  roles = admin ∷ [];
}

abbrev pub the_referent_user : User
the_referent_user = record {
  id = 3;
  email = text "r@u.fr";
  password_hash = text "h";
  first_name = text "Zoe";
  last_name = text "Bel";
  roles = referent ∷ [];
}

abbrev pub db : Db
db = record {
  users = the_student ∷ the_admin_user ∷ the_referent_user ∷ [];
  refresh_tokens = [];
  reset_tokens = [];
  profiles = the_profile ∷ [];
  referents = record { id = 60; user_id = 3; archived = false } ∷ [];
  assignments =
      record {
        school_year = text "2025-2026";
        semester = s2;
        mandatory = true;
        referent_id = 60;
        student_id = 10;
      }
      ∷ [];
  files = [];
  organisms = record { id = 20; input = organism_input } ∷ [];
  tutors = record { id = 30; input = tutor_input; organism_id = 20 } ∷ [];
  stages = the_draft ∷ the_pending ∷ the_validated ∷ [];
  periods =
      record { id = 70; stage_id = 40; start_date = day_2026 50; end_date = day_2026 80 }
      ∷ record { id = 71; stage_id = 41; start_date = day_2026 50; end_date = day_2026 80 }
      ∷ [];
}

abbrev pub world : World
world = record { db = db; outbox = []; logs = [] }

abbrev pub the_admin : DecidingAdmin
the_admin = record { id = 2; acting = record { first_name = text "Eve"; last_name = text "Lam" } }

year_2025 : school_year_of 2025 ≡ text "2025-2026"
unfolding school_year_of
year_2025 =
    rw (show_four 2025 (omega arith) (omega arith), show_four 2026 (omega arith) (omega arith)) refl

pub year_2025_accepted : school_year_schema (text "2025-2026") ≡ some (text "2025-2026")
year_2025_accepted =
    subst (λ s. school_year_schema s ≡ some s) year_2025
      (school_year_schema-school_year_of 2025 (omega arith) (omega arith))
