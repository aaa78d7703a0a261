-- ===== src/Examples/Accounts.antt =====
-- The theorems on accounts: a signup and a login, and a forgotten password.
use campus_internship.Prelude.{◌≡◌, ◌==◌, refl, some, none, text, text_eq, text_eq_refl, arith}
use campus_internship.Shared.Enums.{incomplete}
use campus_internship.Api.Http.{ok}
use campus_internship.Api.Schema.{User}
use campus_internship.Api.World.{◌>>=◌}
use campus_internship.Api.Prisma.{find?, IsClient, reference-IsClient}
use campus_internship.Api.Sessions.{Crypto, issue_tokens, reset_password}
use campus_internship.Api.Sessions.Accounts.{
  SignupDto, LoginDto, AccountIds, new_student, insert_account, signup, login,
}
use campus_internship.Api.Sessions.Accounts.Entry.{session_of, signup-login}
use campus_internship.Api.Sessions.Forgot.{forgot_password}
use campus_internship.Api.Sessions.Forgot.Token.{forgot_password-quiet}
use campus_internship.Api.Sessions.Forgot.Link.{Invites, forgot_password-reset_password}
use campus_internship.Examples.Fixtures.{the_student, env, client, world}

lawful : IsClient client
lawful = reference-IsClient (λ A before rows. rows) (λ A r rows. none)

abbrev crypto : Crypto
crypto = record {
  hash_token = λ t. t;
  hash_password = λ t. t;
  sign = λ u. u.email;
  random_token = text "new";
  token_id = 900;
  refresh_ttl = 1000;
}

abbrev new_ids : AccountIds
new_ids = record { user = 800; profile = 801 }

abbrev ida : SignupDto
ida = record {
  email = text "i@etu.u-paris.fr";
  password = text "une phrase de passe";
  first_name = text "Ida";
  last_name = text "Lou";
}

abbrev credentials : LoginDto
credentials = record { email = ida.email; password = ida.password }

signup-login_example :
    (login client env crypto text_eq credentials
      (signup client env crypto text_eq new_ids ida world).1).0
    ≡ ok (
      session_of client lawful env crypto text_eq
          (new_student client env crypto text_eq new_ids ida),
      some incomplete,
    )
unfolding signup insert_account issue_tokens ◌>>=◌ find? text_eq
signup-login_example =
    signup-login client lawful text_eq env env crypto crypto text_eq_refl (λ r rows. refl) new_ids
      ida world
      (session_of client lawful env crypto text_eq
        (new_student client env crypto text_eq new_ids ida))
      refl refl refl

forgot_password-quiet_example :
    (forgot_password client env crypto (text "https://w/") (text "x") world).0 ≡ ok tt
forgot_password-quiet_example =
    forgot_password-quiet client lawful env crypto (text "https://w/") (λ r rows. refl) (text "x")
      world

forgot_password-reset_password_example :
    let asked = (forgot_password client env crypto (text "https://w/") the_student.email world).1 in
    let after = reset_password client env crypto (text "new") (text "phrase") asked in
    Invites client lawful env crypto
      (text "https://w/")
      (λ r rows. refl)
      the_student
      world.outbox
      asked.outbox
    × ((after.0 ≡ ok tt)
        × ((u : User) × ((find? (λ (x : User). x.id == 1) after.1.db.users ≡ some u)
              × (u.password_hash ≡ text "phrase"))))
unfolding find? text_eq
forgot_password-reset_password_example =
    forgot_password-reset_password client lawful env crypto (text "https://w/") (λ r rows. refl)
      the_student.email world the_student env (text "phrase") refl refl refl (omega arith)
