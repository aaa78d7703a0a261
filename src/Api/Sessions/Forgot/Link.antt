-- ===== src/Api/Sessions/Forgot/Link.antt =====
-- The way from a forgotten password to a new one: the email, its link, and the reset.
use campus_internship.Prelude.{
  ◌+◌, ◌*◌, ◌<◌, ◌==◌, ◌≡◌, refl, sym, ap, ◌∙◌, Bool, true, false, none, some, List, [], ◌∷◌, ◌++◌,
  length, select, ltb, arith, Text, text_eq, Bool-cases, inl, inr,
}
use campus_internship.Api.Sessions.Forgot.Invitation.{Carries, reset_email-Carries}
use campus_internship.Api.Http.{Result, ok, err}
use campus_internship.Api.Schema.{User, PasswordResetToken, Db}
use campus_internship.Api.World.{World, Env, Email, try_write, ◌>>=◌, ◌>>◌}
use campus_internship.Api.Prisma.Tables.{select-found}
use campus_internship.Api.Mailer.{send_safely}
use campus_internship.Api.Stages.Reading.{send_safely-Quiet, send_safely-ReadOnly}
use campus_internship.Api.Sessions.Forgot.{reset_email, forgot_password, upsert_token, process_for}
use campus_internship.Api.Sessions.Forgot.Token.{rows_after, upsert_token_lem, rows_after-Opens}
use campus_internship.Api.Prisma.{Client, IsClient, find?, update_where}
use campus_internship.Api.Sessions.{Crypto, is_claimable, reset_body, reset_password}

-- the first row of a key, after an update of the rows of that key
found_updated :
    {A : Type 0} (p q : A → Bool) (f : A → A) (rows : List A) (r : A)
    → ((x : A) → q (f x) ≡ q x)
    → find? p rows ≡ some r
    → q r ≡ true
    → (x : A) × (find? q (update_where q f rows) ≡ some (f x))
unfolding find? update_where
found_updated p q f [] r k e h = cc
found_updated p q f (x ∷ rows) r k e h = elim (Bool-cases (q x)) [
  | inl t ↦ (x, rw (t, k, t) refl)
  | inr n ↦
      let missed : p x ≡ false = elim (Bool-cases (p x)) [
        | inl t ↦ let same : x ≡ r = ground arith in absurd (ground arith)
        | inr g ↦ g
      ] in
      let (y, found) = found_updated p q f rows r k (ground arith) h in (y, rw (n, n) found)
]

module _ (c : Client) (law : IsClient c) (env : Env) (crypto : Crypto) where
  reset_body_ok :
      (stored : PasswordResetToken) (hash : Text) (v : World) (u : User)
      → (length (select (is_claimable c env crypto stored) v.db.reset_tokens) == 0) ≡ false
      → (length (select (λ (x : User). x.id == stored.user_id) v.db.users) == 0) ≡ false
      → find?
          (λ (x : User). x.id == stored.user_id)
          (update_where
            (λ x. x.id == stored.user_id)
            (λ x. record x { password_hash = hash })
            v.db.users)
        ≡ some u
      → ((reset_body c env crypto stored hash v).0 ≡ ok u)
        × ((reset_body c env crypto stored hash v).1.db.users
            ≡ update_where
                (λ x. x.id == stored.user_id)
                (λ x. record x { password_hash = hash })
                v.db.users)
  unfolding reset_body ◌>>=◌
  reset_body_ok stored hash v u a b e =
      rw
        (
          law.delete_many_lem PasswordResetToken (is_claimable c env crypto stored)
              v.db.reset_tokens,
          a,
          law.update_many_lem User (λ x. x.id == stored.user_id)
              (λ x. record x { password_hash = hash }) v.db.users,
          b,
          law.find_first_lem User (λ x. x.id == stored.user_id)
              (update_where (λ x. x.id == stored.user_id) (λ x. record x { password_hash = hash })
                v.db.users),
          e,
        )
        (refl, refl)

  -- the reset, from a token that is found and has not expired
  reset_password_ok :
      (raw_token new_password : Text) (v : World) (t : PasswordResetToken) (user : User)
      (by_email : User → Bool)
      → find? (λ t. text_eq t.token_hash (crypto.hash_token raw_token)) v.db.reset_tokens ≡ some t
      → env.now < t.expires_at
      → t.user_id ≡ user.id
      → find? by_email v.db.users ≡ some user
      → let after = reset_password c env crypto raw_token new_password v in
        (after.0 ≡ ok tt)
        × ((u : User) × ((find? (λ (x : User). x.id == user.id) after.1.db.users ≡ some u)
              × (u.password_hash ≡ crypto.hash_password new_password)))
  unfolding reset_password ◌>>=◌
  reset_password_ok raw_token new_password v t user by_email found in_time owner known =
      let hash : Text = crypto.hash_password new_password in
      let fresh : ltb t.expires_at env.now ≡ false = ground arith in
      let claimable : is_claimable c env crypto t t ≡ true = ground arith in
      let owned : (user.id == t.user_id) ≡ true = ground arith in
      let (x, updated) =
        found_updated by_email (λ (x : User). x.id == t.user_id)
          (λ x. record x { password_hash = hash }) v.db.users user (λ x. refl) known owned in
      let (returned, users) =
        reset_body_ok t hash v (record x { password_hash = hash })
          (select-found _ (is_claimable c env crypto t) v.db.reset_tokens t found claimable)
          (select-found by_email (λ (x : User). x.id == t.user_id) v.db.users user known owned)
          updated in
      let body = reset_body c env crypto t hash in
      let done : (body v).0 ≡ ok (record x { password_hash = hash }) = returned in
      rw
        (
          law.find_first_lem PasswordResetToken
              (λ t. text_eq t.token_hash (crypto.hash_token raw_token)) v.db.reset_tokens,
          found,
          fresh,
          law.transaction_lem User body v,
          done,
        )
        (
          send_safely-Quiet env _ _,
          (
            record x { password_hash = hash },
            (rw ((send_safely-ReadOnly env _).keeps _, users, sym owner) updated, refl),
          ),
        )

module _ (c : Client) (law : IsClient c) (env : Env) (crypto : Crypto) (web_app_url : Text)
    (tokens : (r : PasswordResetToken) (rows : List PasswordResetToken)
      → c.insert_fails PasswordResetToken r rows ≡ none) where
  -- the world after the write of the token, where the provider takes the email
  abbrev sent_world : User → World → World
  sent_world user w = record w {
    db = record w.db {
      reset_tokens =
          rows_after c law env crypto web_app_url tokens user w.db.reset_tokens
            (find? (λ t. t.user_id == user.id) w.db.reset_tokens);
    };
    outbox = w.outbox ++ reset_email c env crypto web_app_url user ∷ [];
  }

  written_sent :
      (mail : Email) (w : World) (r : Result Db) (db : Db)
      → r ≡ ok db
      → env.deliver mail ≡ true
      → ((try_write (λ before. r) >> send_safely env mail) w).1
        ≡ record w { db = db; outbox = w.outbox ++ mail ∷ [] }
  unfolding send_safely ◌>>=◌
  written_sent mail w (ok after) db e delivered = let same : after ≡ db = cc in rw (delivered, same)
  written_sent mail w (err x) db e delivered = cc

  process_for_sent :
      (user : User) (w : World)
      → env.deliver (reset_email c env crypto web_app_url user) ≡ true
      → (process_for c env crypto web_app_url (some user) w).1 ≡ sent_world user w
  unfolding process_for upsert_token try_write ◌>>=◌
  process_for_sent user w delivered =
      written_sent (reset_email c env crypto web_app_url user) w
        (upsert_token c env crypto web_app_url user w.db) _
        (upsert_token_lem c law env crypto web_app_url tokens user w.db) delivered

  forgot_password_sent :
      (email : Text) (w : World) (user : User)
      → find? (λ u. text_eq u.email email) w.db.users ≡ some user
      → env.deliver (reset_email c env crypto web_app_url user) ≡ true
      → (forgot_password c env crypto web_app_url email w).1 ≡ sent_world user w
  unfolding forgot_password ◌>>=◌
  forgot_password_sent email w user known delivered =
      ap (λ o. (process_for c env crypto web_app_url o w).1)
        (law.find_first_lem User (λ u. text_eq u.email email) w.db.users ∙ known)
      ∙ process_for_sent user w delivered

  -- what an email with a link to a reset is
  abbrev pub Invites : User → List Email → List Email → Type 0
  Invites user before after =
      (e : Email) × ((after ≡ before ++ e ∷ [])
        × ((e.to ≡ user.email) × Carries crypto.random_token e.body))

  -- After a request for a new password with the email of a user, where the provider takes the email, the
  -- database refuses no reset token and no stored token had the hash of the new one: one email was
  -- sent, to that user, with a link that ends in the token; and a reset with that token, made less
  -- than twenty minutes later before anything else, succeeds and leaves the hash of the new password
  -- with that user.
  pub forgot_password-reset_password :
      (email : Text) (w : World) (user : User) (later : Env) (new_password : Text)
      → find? (λ u. text_eq u.email email) w.db.users ≡ some user
      → find? (λ t. text_eq t.token_hash (crypto.hash_token crypto.random_token)) w.db.reset_tokens
        ≡ none
      → env.deliver (reset_email c env crypto web_app_url user) ≡ true
      → later.now < env.now + 20 * 60 * 1000
      → let asked = (forgot_password c env crypto web_app_url email w).1 in
        let after = reset_password c later crypto crypto.random_token new_password asked in
        Invites user w.outbox asked.outbox
        × ((after.0 ≡ ok tt)
            × ((u : User) × ((find? (λ (x : User). x.id == user.id) after.1.db.users ≡ some u)
                  × (u.password_hash ≡ crypto.hash_password new_password))))
  forgot_password-reset_password email w user later new_password known fresh delivered in_time =
      let (t, (found, (owner, expiry))) =
        rows_after-Opens c law env crypto web_app_url tokens user w.db.reset_tokens
          (find? (λ t. t.user_id == user.id) w.db.reset_tokens) refl fresh in
      rw (forgot_password_sent email w user known delivered) (
        (
          reset_email c env crypto web_app_url user,
          (refl, (refl, reset_email-Carries c env crypto web_app_url user)),
        ),
        reset_password_ok c law later crypto crypto.random_token new_password (sent_world user w) t
            user (λ u. text_eq u.email email) found (rw expiry in_time) owner known,
      )
