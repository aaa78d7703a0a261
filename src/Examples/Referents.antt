-- ===== src/Examples/Referents.antt =====
-- The theorems on referents, at a database with one referent and one assignment.
use campus_internship.Prelude.{◌≡◌, refl, true, none, text, text_eq, text_lt}
use campus_internship.Shared.Enums.{s1}
use campus_internship.Api.World.{◌>>=◌}
use campus_internship.Api.Prisma.{find?, update_where, IsClient, reference-IsClient}
use campus_internship.Api.Sessions.{Crypto}
use campus_internship.Api.Referents.{
  AssignReferentRequest, CreateReferentRequest, ReferentListItem, Collation, NewIds,
  requested_tuple, assign, referent_item, create, create_for, insert_referent, add_referent,
}
use campus_internship.Api.Referents.Assignment.{assign-refines, assign-OneRowEach}
use campus_internship.Api.Referents.Table.{referent_of, put, OneRowEach}
use campus_internship.Api.Referents.Creation.{AccountsKept, create-account}
use campus_internship.Api.Referents.Roles.{is_referent_profile, create-is_referent_profile}
use campus_internship.Examples.Fixtures.{client, world}

lawful : IsClient client
lawful = reference-IsClient (λ A before rows. rows) (λ A r rows. none)

abbrev crypto : Crypto
crypto = record {
  hash_token = λ t. t;
  hash_password = λ t. t;
  sign = λ u. u.email;
  random_token = text "new";
  token_id = 900;
  refresh_ttl = 1000;
}

abbrev collation : Collation
collation = record { same_email = text_eq; locale_equal = text_eq; name_order = text_lt }

abbrev new_ids : NewIds
new_ids = record { user = 800; profile = 801 }

abbrev request : AssignReferentRequest
request = record {
  student_id = 10;
  school_year = text "2025-2026";
  semester = s1;
  mandatory = true;
  referent_id = 60;
}

abbrev zoe : ReferentListItem
zoe = record { id = 60; first_name = text "Zoe"; last_name = text "Bel" }

assign-refines_example :
    (referent_of (requested_tuple request) (assign client request world).1.db.assignments
      ≡ put
          (requested_tuple request)
          60
          (λ j. referent_of j world.db.assignments)
          (requested_tuple request))
    × ((assign client request world).1.db
        ≡ record world.db { assignments = (assign client request world).1.db.assignments })
unfolding assign referent_item ◌>>=◌ find? text_eq
assign-refines_example =
    assign-refines client lawful request world zoe (requested_tuple request) refl

assign-OneRowEach_example : OneRowEach (assign client request world).1.db.assignments
assign-OneRowEach_example = assign-OneRowEach client lawful request world (tt, tt)

-- the admin becomes a referent
abbrev eve : CreateReferentRequest
eve = record { first_name = text "Eve"; last_name = text "Lam"; email = text "a@u.fr" }

create-account_example :
    AccountsKept client lawful collation crypto new_ids eve world.db.users
      (create client collation crypto new_ids eve world).1.db.users
create-account_example = create-account client lawful collation crypto new_ids eve world

create-is_referent_profile_example :
    is_referent_profile 801 (create client collation crypto new_ids eve world).1.db ≡ true
unfolding create create_for insert_referent add_referent ◌>>=◌ find? update_where text_eq
create-is_referent_profile_example =
    create-is_referent_profile client lawful collation crypto new_ids eve world
      (record { id = 801; first_name = text "Eve"; last_name = text "Lam" }) refl
