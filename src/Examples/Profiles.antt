-- ===== src/Examples/Profiles.antt =====
-- The theorems on the profiles, at the database of the fixtures.
use campus_internship.Prelude.{◌≡◌, ◌≢◌, ◌⊎◌, ◌↔◌, true, false, none, some, [], ◌∷◌, text}
use campus_internship.Shared.Enums.{
  incomplete, pending_validation, valid, expired, l2, l3, insurance_certificate,
}
use campus_internship.Shared.SchoolYear.{get_current_school_year}
use campus_internship.Api.Schema.{StudentProfile, FileObject}
use campus_internship.Api.World.{World}
use campus_internship.Api.World.Preserves.{Preserves}
use campus_internship.Api.Prisma.{IsClient, reference-IsClient}
use campus_internship.Api.Prisma.Tables.{Keyed}
use campus_internship.Api.Profiles.Status.{next_status, expiry_of}
use campus_internship.Api.Profiles.Status.Laws.{StudentMove, next_status_iff}
use campus_internship.Api.Profiles.Student.{ProfileUpdate, Upload, update_profile}
use campus_internship.Api.Profiles.Student.Moves.{ProfilesMove, update_profile-ProfilesMove}
use campus_internship.Api.Profiles.Rollover.Laws.{status_then, rollover_iff}
use campus_internship.Examples.Fixtures.{env, client, world, the_profile, day_2026}

lawful : IsClient client
lawful = reference-IsClient (λ A before rows. rows) (λ A r rows. none)

-- the profile of the fixtures, once it waits for its validation
abbrev waiting : StudentProfile
waiting = record the_profile { profile_status = pending_validation }

abbrev queue : World
queue = record world { db = record world.db { profiles = waiting ∷ [] } }

one_profile : Keyed (λ (x : StudentProfile). x.id) world.db.profiles
unfolding Keyed
one_profile = (tt, tt)

next_status_iff_example :
    let next = next_status valid (some l3) true true false true in
    StudentMove valid next
    × ((next ≢ valid) ↔ (
        (((valid ≡ incomplete) ⊎ (valid ≡ expired))
          × (some l3 ≢ none)
          × (true ≡ true)
          × (true ≡ true))
        ⊎ ((valid ≡ valid) × ((false ≡ true) ⊎ (true ≡ true)))))
next_status_iff_example = next_status_iff valid (some l3) true true false true

abbrev certificate : FileObject
certificate = record {
  id = 80;
  file_type = insurance_certificate;
  bucket_key = text "k";
  mime_type = text "m";
  size_bytes = 1;
  expires_at = expiry_of insurance_certificate (day_2026 1);
  uploaded_at = day_2026 1;
  student_profile_id = 10;
}

abbrev promotion_change : ProfileUpdate
promotion_change = record { promotion = some l2; phone = none; personal_email = some none }

update_profile-ProfilesMove_example :
    Preserves ProfilesMove (update_profile client env 1 promotion_change)
update_profile-ProfilesMove_example =
    update_profile-ProfilesMove client lawful env 1 promotion_change

abbrev new_certificate : Upload
new_certificate = record {
  id = 81;
  bucket_key = λ id t. text "k";
  mime_type = text "application/pdf";
  size = 10;
  stored = true;
}

abbrev over : World
over = record world {
  db = record world.db { profiles = record the_profile { profile_status = expired } ∷ [] };
}

rollover_iff_example :
    ((status_then env.now the_profile ≡ valid)
      ⊎ (status_then env.now the_profile ≡ pending_validation))
    ↔ ((the_profile.profile_year ≡ some (get_current_school_year env.now))
        × ((the_profile.profile_status ≡ valid)
            ⊎ (the_profile.profile_status ≡ pending_validation)))
rollover_iff_example = rollover_iff env.now the_profile

abbrev old_profile : StudentProfile
old_profile = record the_profile { profile_year = none }
