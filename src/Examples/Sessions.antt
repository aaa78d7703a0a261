-- ===== src/Examples/Sessions.antt =====
-- The theorems on the reset of a password, at a database with a reset token and two sessions.
use campus_internship.Prelude.{◌≡◌, ◌≢◌, ◌==◌, refl, none, [], ◌∷◌, ◌++◌, All, text, text_eq}
use campus_internship.Api.Schema.{RefreshToken, PasswordResetToken}
use campus_internship.Api.World.{World, ◌>>=◌}
use campus_internship.Api.Prisma.{find?, delete_where, update_where, IsClient, reference-IsClient}
use campus_internship.Api.Mailer.{send_safely}
use campus_internship.Api.Sessions.{
  Crypto, reset_password, reset_body, refresh, refresh_body, issue_tokens,
}
use campus_internship.Api.Sessions.Refresh.{new_row, refresh_rotates}
use campus_internship.Api.Sessions.Reset.{reset_password_revokes}
use campus_internship.Examples.Fixtures.{the_admin_user, env, client, world, day_2026}

lawful : IsClient client
lawful = reference-IsClient (λ A before rows. rows) (λ A r rows. none)

abbrev crypto : Crypto
crypto = record {
  hash_token = λ t. t;
  hash_password = λ t. t;
  sign = λ u. u.email;
  random_token = text "new";
  token_id = 900;
  refresh_ttl = 1000;
}

abbrev the_token : PasswordResetToken
the_token = record { id = 91; token_hash = text "t"; expires_at = day_2026 41; user_id = 1 }

abbrev signed_in : World
signed_in = record world {
  db = record world.db {
    reset_tokens = the_token ∷ [];
    refresh_tokens =
        record { id = 92; token_hash = text "a"; expires_at = day_2026 60; user_id = 1 }
        ∷ record { id = 93; token_hash = text "b"; expires_at = day_2026 60; user_id = 2 }
        ∷ [];
  };
}

reset_password_revokes_example :
    All
      (λ (t : RefreshToken). t.user_id ≢ 1)
      (reset_password client env crypto (text "t") (text "Secret12") signed_in).1.db.refresh_tokens
unfolding reset_password reset_body ◌>>=◌ find? text_eq delete_where update_where send_safely
reset_password_revokes_example =
    reset_password_revokes client lawful env crypto (text "t") (text "Secret12") signed_in the_token
      refl refl

refresh_rotates_example :
    ((refresh client env crypto (text "b") signed_in).1.db.refresh_tokens
      ≡ delete_where (λ (t : RefreshToken). t.id == 93) signed_in.db.refresh_tokens
        ++ new_row env crypto 2 ∷ [])
    × (text "new" ≡ text "new")
unfolding refresh refresh_body issue_tokens ◌>>=◌ find? text_eq delete_where
refresh_rotates_example =
    refresh_rotates client lawful env crypto (text "b") signed_in
      (record { id = 93; token_hash = text "b"; expires_at = day_2026 60; user_id = 2 })
      (record {
        user = the_admin_user;
        access_token = the_admin_user.email;
        refresh_token = text "new";
      })
      refl refl
