-- ===== src/Api/Sessions/Forgot/Token.antt =====
-- What a request for a new password answers, and the token that it leaves.
use campus_internship.Prelude.{
  ◌+◌, ◌==◌, ◌≡◌, refl, ap, ◌∙◌, Bool, true, false, Option, none, some, List, [], ◌∷◌, ◌++◌, arith,
  Text, text_eq, text_eq_refl, Bool-cases, inl, inr,
}
use campus_internship.Api.Http.{Result, ok, err}
use campus_internship.Api.Schema.{User, PasswordResetToken, Db}
use campus_internship.Api.World.{World, Env, ◌>>=◌, ◌>>◌, map_result, try_write}
use campus_internship.Api.Prisma.{
  Client, IsClient, find?, update_where, delete_where, upserted, created,
}
use campus_internship.Api.Prisma.Tables.{find?_test, find?-added}
use campus_internship.Api.Mailer.{send_safely}
use campus_internship.Api.Stages.Reading.{send_safely-Quiet}
use campus_internship.Api.Sessions.{Crypto}
use campus_internship.Api.Sessions.Forgot.{
  reset_token_ttl_ms, reset_email, reissued, first_token, upsert_token, process_for,
  forgot_password,
}

module _ (c : Client) (law : IsClient c) (env : Env) (crypto : Crypto) (web_app_url : Text)
    (tokens : (r : PasswordResetToken) (rows : List PasswordResetToken)
      → c.insert_fails PasswordResetToken r rows ≡ none) where
  -- the rows after the upsert
  abbrev pub rows_after :
      User → List PasswordResetToken → Option PasswordResetToken → List PasswordResetToken
  rows_after user rows none = rows ++ first_token c env crypto web_app_url user ∷ []
  rows_after user rows (some t) =
      update_where (λ t. t.user_id == user.id) (reissued c env crypto web_app_url) rows

  upserted_lem :
      (user : User) (rows : List PasswordResetToken) (found : Option PasswordResetToken)
      → upserted
          (c.insert_fails PasswordResetToken)
          (λ t. t.user_id == user.id)
          (reissued c env crypto web_app_url)
          (first_token c env crypto web_app_url user)
          rows
          found
        ≡ ok (rows_after user rows found)
  upserted_lem user rows none =
      ap (λ o. created o (rows_after user rows none))
        (tokens (first_token c env crypto web_app_url user) rows)
  upserted_lem user rows (some t) =
      ap (λ o. created o (rows_after user rows (some t)))
        (tokens (reissued c env crypto web_app_url t)
          (delete_where (λ t. t.user_id == user.id) rows))

  pub upsert_token_lem :
      (user : User) (db : Db)
      → upsert_token c env crypto web_app_url user db
        ≡ ok (record db {
          reset_tokens =
              rows_after user db.reset_tokens (find? (λ t. t.user_id == user.id) db.reset_tokens);
        })
  unfolding upsert_token
  upsert_token_lem user db = ap (map_result (λ rows. record db { reset_tokens = rows })) (
      law.upsert_lem PasswordResetToken _ _ _ db.reset_tokens
      ∙ upserted_lem user db.reset_tokens (find? (λ t. t.user_id == user.id) db.reset_tokens))

  sent_after :
      (user : User) (w : World) (r : Result Db) (db : Db)
      → r ≡ ok db
      → ((try_write (λ before. r) >> send_safely env (reset_email c env crypto web_app_url user))
          w).0
        ≡ ok tt
  unfolding ◌>>=◌
  sent_after user w (ok after) db e =
      send_safely-Quiet env (reset_email c env crypto web_app_url user) (record w { db = after })
  sent_after user w (err x) db e = cc

  process_for-quiet :
      (found : Option User) (w : World) → (process_for c env crypto web_app_url found w).0 ≡ ok tt
  unfolding process_for ◌>>=◌
  process_for-quiet none w = refl
  process_for-quiet (some user) w =
      sent_after user w (upsert_token c env crypto web_app_url user w.db) _
        (upsert_token_lem user w.db)

  -- Where the database refuses no reset token, a request for a new password ends well for every email
  -- and every database: the answer does not tell whether the email has an account.
  pub forgot_password-quiet :
      (email : Text) (w : World) → (forgot_password c env crypto web_app_url email w).0 ≡ ok tt
  unfolding forgot_password ◌>>=◌
  forgot_password-quiet email w =
      process_for-quiet (c.find_first User (λ u. text_eq u.email email) w.db.users) w

  -- the test of the lookup of a reset
  abbrev pub has_hash : PasswordResetToken → Bool
  has_hash t = text_eq t.token_hash (crypto.hash_token crypto.random_token)

  reissued-found :
      (user : User) (rows : List PasswordResetToken) (t : PasswordResetToken)
      → find? (λ t. t.user_id == user.id) rows ≡ some t
      → find? has_hash rows ≡ none
      → find? has_hash (rows_after user rows (some t)) ≡ some (reissued c env crypto web_app_url t)
  unfolding find? update_where
  reissued-found user [] t e h = cc
  reissued-found user (x ∷ rows) t e h = elim (Bool-cases (x.user_id == user.id)) [
    | inl q ↦
        let same : x ≡ t = ground arith in
        rw (q, text_eq_refl (crypto.hash_token crypto.random_token), same)
    | inr f ↦
        let miss : has_hash x ≡ false = ground arith in
        rw (f, miss) (reissued-found user rows t (ground arith) (ground arith))
  ]

  -- the token that the link of the email opens
  abbrev pub Opens : User → Option PasswordResetToken → Type 0
  Opens user found =
      (t : PasswordResetToken) × ((found ≡ some t)
        × ((t.user_id ≡ user.id) × (t.expires_at ≡ env.now + reset_token_ttl_ms)))

  pub rows_after-Opens :
      (user : User) (rows : List PasswordResetToken) (found : Option PasswordResetToken)
      → find? (λ t. t.user_id == user.id) rows ≡ found
      → find? has_hash rows ≡ none
      → Opens user (find? has_hash (rows_after user rows found))
  rows_after-Opens user rows none e h = (
    first_token c env crypto web_app_url user,
    (
      find?-added has_hash rows (first_token c env crypto web_app_url user) h
          (text_eq_refl (crypto.hash_token crypto.random_token)),
      (refl, refl),
    ),
  )
  rows_after-Opens user rows (some t) e h =
      let owner : (t.user_id == user.id) ≡ true =
        find?_test (λ (t : PasswordResetToken). t.user_id == user.id) rows t e in
      (reissued c env crypto web_app_url t, (reissued-found user rows t e h, (ground arith, refl)))
