-- ===== src/Api/Sessions/Forgot.antt =====
-- `forgotPassword` of modules/auth/auth.service.ts. The email is not awaited: it is sent here after the
-- write, and what becomes of it is not seen by the caller.
pub mod Token
pub mod Invitation
pub mod Link
use campus_internship.Prelude.{
  ℕ, ◌+◌, ◌*◌, ◌==◌, Bool, true, false, Option, none, some, List, [], ◌∷◌, ◌++◌, Text, text,
  text_eq, if◌then◌else◌,
}
use mathlib.Core.List.{reverse}
use campus_internship.Api.Http.{Result, ok, err}
use campus_internship.Api.Schema.{Uuid, User, PasswordResetToken, Db}
use campus_internship.Api.World.{Env, Email, M, ◌>>=◌, ◌>>◌, pure, query, try_write, map_result}
use campus_internship.Api.Prisma.{Client}
use campus_internship.Api.Mailer.{send_safely}
use campus_internship.Api.Sessions.{Crypto}

-- `RESET_TOKEN_TTL_MS`
abbrev pub reset_token_ttl_ms : ℕ
reset_token_ttl_ms = 20 * 60 * 1000

drop_slashes : Text → Text
drop_slashes [] = []
drop_slashes (c ∷ s) = let rest = drop_slashes s in if c == 47 then rest else c ∷ s

-- `.replace(/\/+$/, "")`
unfoldable pub without_trailing_slashes : Text → Text
unfolding drop_slashes
without_trailing_slashes url = reverse (drop_slashes (reverse url))

paragraph : Text → Text → Text
paragraph p rest = p ++ 10 ∷ 10 ∷ rest

-- `composeResetEmail`
unfoldable pub compose_reset_email : Text → Text → Text
unfolding paragraph
compose_reset_email first_name reset_url = paragraph (text "Bonjour " ++ (first_name ++ text ",")) (
    paragraph
      (text "Vous avez demandé la réinitialisation de votre mot de passe sur Gestion des stages.")
      (paragraph
        (text
          "Cliquez sur le lien suivant pour choisir un nouveau mot de passe. Ce lien est valable 20 minutes et ne peut être utilisé qu'une seule fois :")
        (paragraph reset_url (
          paragraph
            (text
              "Si vous n'êtes pas à l'origine de cette demande, vous pouvez ignorer cet email : votre mot de passe reste inchangé.")
            (paragraph (text "Cordialement," ++ 10 ∷ text "L'équipe Gestion des stages")
              (text "Cet email est envoyé automatiquement, merci de ne pas y répondre."))))))

module _ (c : Client) (env : Env) (crypto : Crypto) (web_app_url : Text) where
  abbrev reset_url : Text
  reset_url =
      without_trailing_slashes web_app_url ++ (text "/reset-password?token=" ++ crypto.random_token)

  abbrev pub reset_email : User → Email
  reset_email user = record {
    to = user.email;
    cc = [];
    subject = "Réinitialisation de votre mot de passe";
    body = compose_reset_email user.first_name reset_url;
  }

  -- `update` and `create` of the upsert
  abbrev pub reissued : PasswordResetToken → PasswordResetToken
  reissued t = record t {
    token_hash = crypto.hash_token crypto.random_token;
    expires_at = env.now + reset_token_ttl_ms;
  }

  abbrev pub first_token : User → PasswordResetToken
  first_token user = record {
    id = crypto.token_id;
    token_hash = crypto.hash_token crypto.random_token;
    expires_at = env.now + reset_token_ttl_ms;
    user_id = user.id;
  }

  unfoldable pub upsert_token : User → Db → Result Db
  upsert_token user db =
      map_result (λ rows. record db { reset_tokens = rows })
        (c.upsert PasswordResetToken (λ t. t.user_id == user.id) reissued (first_token user)
          db.reset_tokens)

  -- `processForgotPassword`, from the user that is found
  unfoldable pub process_for : Option User → M (Unit {0})
  process_for none = pure tt
  process_for (some user) = do try_write (upsert_token user); send_safely env (reset_email user)

  -- `forgotPassword`
  unfoldable pub forgot_password : Text → M (Unit {0})
  forgot_password email = do
    user ← query (λ db. c.find_first User (λ u. text_eq u.email email) db.users)
    process_for user
