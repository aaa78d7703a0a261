-- ===== src/Api/Sessions.antt =====
-- modules/auth/auth.service.ts: refresh tokens and the reset of a password.
pub mod Reset
pub mod Refresh
pub mod Accounts
pub mod Forgot
use campus_internship.Prelude.{
  ℕ, ◌+◌, ◌==◌, String, Bool, true, false, not, ◌&&◌, Option, none, some, List, [], ◌∷◌, ◌++◌,
  if◌then◌else◌, ltb, Text, text, text_eq,
}
use campus_internship.Shared.Calendar.{Date}
use campus_internship.Api.Http.{Error, Result, unauthorized, bad_request, prisma, p2025}
use campus_internship.Api.Schema.{Uuid, User, RefreshToken, PasswordResetToken, Db}
use campus_internship.Api.World.{
  Env, Email, M, World, ◌>>=◌, ◌>>◌, pure, query, write, try_write, or_throw, require, map_result,
}
use campus_internship.Api.Prisma.{Client}
use campus_internship.Api.Mailer.{send_safely}

-- the functions of cryptography, and what one request draws from the source of randomness
pub record Crypto : Type 0 where
  pub hash_token : Text → Text
  pub hash_password : Text → Text
  pub sign : User → Text
  pub random_token : Text
  pub token_id : Uuid
  pub refresh_ttl : ℕ

-- `IssuedSession`
pub record Session : Type 0 where
  pub user : User
  pub access_token : Text
  pub refresh_token : Text

abbrev pub session_invalid : Error
session_invalid = unauthorized "Session invalide, merci de vous reconnecter"

abbrev pub reset_invalid : Error
reset_invalid = bad_request ("Lien de réinitialisation invalide ou expiré" ∷ [])

-- a stored token, unless `stored.expiresAt < new Date()`
abbrev pub unless_expired {ℓ} : {A : Type ℓ} → (A → Date) → Date → Option A → Option A
unless_expired expires now none = none
unless_expired expires now (some t) = if ltb (expires t) now then none else some t

module _ (c : Client) (env : Env) (crypto : Crypto) where
  -- `issueTokens`
  unfoldable pub issue_tokens : User → M Session
  issue_tokens user = do
    try_write (λ db.
        map_result (λ rows. record db { refresh_tokens = rows })
          (c.create RefreshToken
            (record {
              id = crypto.token_id;
              token_hash = crypto.hash_token crypto.random_token;
              expires_at = env.now + crypto.refresh_ttl;
              user_id = user.id;
            })
            db.refresh_tokens))
    pure (record {
      user = user;
      access_token = crypto.sign user;
      refresh_token = crypto.random_token;
    })

  -- the body of the transaction of `refresh`
  unfoldable pub refresh_body : RefreshToken → M Session
  refresh_body stored = do
    count ← write (λ db.
        let (n, rows) = c.delete_many RefreshToken (λ t. t.id == stored.id) db.refresh_tokens in
        (n, record db { refresh_tokens = rows }))
    require (not (count == 0)) (prisma p2025)
    found ← query (λ db. c.find_first User (λ u. u.id == stored.user_id) db.users)
    user ← or_throw found (prisma p2025)
    issue_tokens user

  -- `refresh`
  unfoldable pub refresh : Text → M Session
  refresh raw_token = do
    found ← query (λ db.
        c.find_first RefreshToken (λ t. text_eq t.token_hash (crypto.hash_token raw_token))
          db.refresh_tokens)
    stored ←
        or_throw (unless_expired (λ (t : RefreshToken). t.expires_at) env.now found) session_invalid
    c.transaction Session (refresh_body stored)

  -- `logout`
  unfoldable pub logout : Text → M (Unit {0})
  logout raw_token = do
    count ← write (λ db.
        let (n, rows) =
          c.delete_many RefreshToken (λ t. text_eq t.token_hash (crypto.hash_token raw_token))
            db.refresh_tokens in
        (n, record db { refresh_tokens = rows }))
    pure tt

  -- the test that claims a reset token
  abbrev pub is_claimable : PasswordResetToken → PasswordResetToken → Bool
  is_claimable stored t = (t.id == stored.id) && ltb env.now t.expires_at

  -- the body of the transaction of `resetPassword`
  unfoldable pub reset_body : PasswordResetToken → Text → M User
  reset_body stored password_hash = do
    claimed ← write (λ db.
        let (n, rows) = c.delete_many PasswordResetToken (is_claimable stored) db.reset_tokens in
        (n, record db { reset_tokens = rows }))
    require (not (claimed == 0)) reset_invalid
    count ← write (λ db.
        let (n, rows) =
          c.update_many User (λ u. u.id == stored.user_id)
            (λ u. record u { password_hash = password_hash }) db.users in
        (n, record db { users = rows }))
    require (not (count == 0)) (prisma p2025)
    found ← query (λ db. c.find_first User (λ u. u.id == stored.user_id) db.users)
    user ← or_throw found (prisma p2025)
    revoked ← write (λ db.
        let (n, rows) =
          c.delete_many RefreshToken (λ t. t.user_id == stored.user_id) db.refresh_tokens in
        (n, record db { refresh_tokens = rows }))
    pure user

  -- `composeConfirmationEmail`
  unfoldable pub compose_confirmation_email : Text → Text
  compose_confirmation_email first_name =
      text "Bonjour "
      ++ (first_name
          ++ (text ","
              ++ ((10 ∷ 10 ∷ text "Votre mot de passe sur Gestion des stages vient d'être modifié.")
                  ++ ((10
                        ∷ 10
                        ∷ text
                            "Si vous êtes à l'origine de ce changement, vous n'avez rien à faire.")
                      ++ ((10
                            ∷ 10
                            ∷ text
                                "Si vous n'êtes pas à l'origine de cette modification, contactez l'administration au plus vite.")
                          ++ ((10 ∷ 10 ∷ text "Cordialement,")
                              ++ ((10 ∷ text "L'équipe Gestion des stages")
                                  ++ ((10
                                      ∷ 10
                                      ∷ text
                                          "Cet email est envoyé automatiquement, merci de ne pas y répondre.")))))))))

  abbrev pub confirmation : User → Email
  confirmation user = record {
    to = user.email;
    cc = [];
    subject = "Votre mot de passe a été modifié";
    body = compose_confirmation_email user.first_name;
  }

  -- `resetPassword`
  unfoldable pub reset_password : Text → Text → M (Unit {0})
  reset_password raw_token new_password = do
    found ← query (λ db.
        c.find_first PasswordResetToken (λ t. text_eq t.token_hash (crypto.hash_token raw_token))
          db.reset_tokens)
    stored ←
        or_throw (unless_expired (λ (t : PasswordResetToken). t.expires_at) env.now found)
          reset_invalid
    user ← c.transaction User (reset_body stored (crypto.hash_password new_password))
    send_safely env (confirmation user)
