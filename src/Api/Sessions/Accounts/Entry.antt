-- ===== src/Api/Sessions/Accounts/Entry.antt =====
-- Who gets in: a student who has just signed up does, and a login without the password does not.
use campus_internship.Prelude.{
  ◌≡◌, ◌==◌, refl, sym, ap, ◌∙◌, Bool, true, false, Option, none, some, List, [], ◌∷◌, ◌++◌, arith,
  Text, text_eq, text_eq_refl, Bool-cases, inl, inr,
}
use campus_internship.Shared.Enums.{ProfileStatus, incomplete}
use campus_internship.Api.Http.{Result, ok, err}
use campus_internship.Api.Schema.{User, StudentProfile, RefreshToken, Db}
use campus_internship.Api.World.{World, Env, ◌>>=◌, ◌>>◌, map_result, try_write, pure}
use campus_internship.Api.Prisma.{Client, IsClient, find?, created}
use campus_internship.Api.Prisma.Tables.{created-ok, find?-added}
use campus_internship.Api.Profiles.Rollover.{
  apply_yearly_rollover, rolled_over, apply_rollover, is_year,
}
use campus_internship.Shared.Calendar.{Date}
use campus_internship.Shared.SchoolYear.{get_current_school_year}
use campus_internship.Api.Sessions.{Crypto, Session, issue_tokens}
use campus_internship.Api.Sessions.Refresh.{new_row}
use campus_internship.Api.Sessions.Accounts.{
  SignupDto, LoginDto, AccountIds, login_failure, new_student, new_profile, inserted_account,
  insert_account, signup, refuse_login, enter, login_as, login,
}

module _ (c : Client) (law : IsClient c) (env : Env) (crypto : Crypto)
    (compare : Text → Text → Bool) where
  abbrev pub session_of : User → Session
  session_of user = record {
    user = user;
    access_token = crypto.sign user;
    refresh_token = crypto.random_token;
  }

  refuse_login_lem :
      (email : Text) (w : World)
      → ((refuse_login c env crypto compare email w).0 ≡ err login_failure)
        × ((refuse_login c env crypto compare email w).1.db ≡ w.db)
  unfolding refuse_login ◌>>=◌
  refuse_login_lem email w = (refl, refl)

  -- the password does not open the account, if there is one
  abbrev pub opens : Text → Option User → Bool
  opens password none = false
  opens password (some user) = compare password user.password_hash

  login_as-refused :
      (dto : LoginDto) (found : Option User) (w : World)
      → opens dto.password found ≡ false
      → ((login_as c env crypto compare dto found w).0 ≡ err login_failure)
        × ((login_as c env crypto compare dto found w).1.db ≡ w.db)
  login_as-refused dto none w e = refuse_login_lem dto.email w
  login_as-refused dto (some user) w e = rw e (refuse_login_lem dto.email w)

  -- A login with an email that no account has, or with a password that does not open the account, gives
  -- the same refusal and writes nothing.
  pub login-refused :
      (dto : LoginDto) (w : World)
      → opens dto.password (find? (λ u. text_eq u.email dto.email) w.db.users) ≡ false
      → ((login c env crypto compare dto w).0 ≡ err login_failure)
        × ((login c env crypto compare dto w).1.db ≡ w.db)
  unfolding login ◌>>=◌
  login-refused dto w e =
      login_as-refused dto (c.find_first User (λ u. text_eq u.email dto.email) w.db.users) w
        (rw (law.find_first_lem User (λ u. text_eq u.email dto.email) w.db.users) e)

  inserted_account-ok :
      (db after : Db) (profiles : Result (List StudentProfile)) (users : Result (List User))
      → inserted_account c env crypto compare db profiles users ≡ ok after
      → (users ≡ ok after.users) × (profiles ≡ ok after.profiles)
  inserted_account-ok db after (ok ps) (ok us) e = ground arith
  inserted_account-ok db after (err x) (ok us) e = cc
  inserted_account-ok db after ps (err x) e = cc

  insert_account-rows :
      (ids : AccountIds) (dto : SignupDto) (db after : Db)
      → insert_account c env crypto compare ids dto db ≡ ok after
      → (after.users ≡ db.users ++ new_student c env crypto compare ids dto ∷ [])
        × (after.profiles ≡ db.profiles ++ new_profile c env crypto compare ids ∷ [])
  unfolding insert_account
  insert_account-rows ids dto db after e =
      let (users, profiles) = inserted_account-ok db after _ _ e in
      (
        sym (created-ok _ _ _ (sym (law.create_lem User _ db.users) ∙ users)),
        sym (created-ok _ _ _ (sym (law.create_lem StudentProfile _ db.profiles) ∙ profiles)),
      )

  -- the tables of accounts after the tokens were issued
  tokens_written :
      (r : Result (List RefreshToken)) (s : Session) (w : World)
      → (((try_write (λ db. map_result (λ rows. record db { refresh_tokens = rows }) r) >> pure s)
            w).1.db.users
          ≡ w.db.users)
        × (((try_write (λ db. map_result (λ rows. record db { refresh_tokens = rows }) r) >> pure s)
              w).1.db.profiles
            ≡ w.db.profiles)
  unfolding ◌>>=◌
  tokens_written (ok rows) s w = (refl, refl)
  tokens_written (err e) s w = (refl, refl)

  issue_tokens-frame :
      (user : User) (w : World)
      → ((issue_tokens c env crypto user w).1.db.users ≡ w.db.users)
        × ((issue_tokens c env crypto user w).1.db.profiles ≡ w.db.profiles)
  unfolding issue_tokens ◌>>=◌
  issue_tokens-frame user w = tokens_written _ _ w

  signup-rows :
      (ids : AccountIds) (dto : SignupDto) (w : World) (r : Result Db) (s : Session)
      → insert_account c env crypto compare ids dto w.db ≡ r
      → ((try_write (λ db. r)
            >> issue_tokens c env crypto (new_student c env crypto compare ids dto))
          w).0
        ≡ ok s
      → let v =
          ((try_write (λ db. r)
              >> issue_tokens c env crypto (new_student c env crypto compare ids dto))
            w).1 in
        (v.db.users ≡ w.db.users ++ new_student c env crypto compare ids dto ∷ [])
        × (v.db.profiles ≡ w.db.profiles ++ new_profile c env crypto compare ids ∷ [])
  unfolding ◌>>=◌
  signup-rows ids dto w (ok db) s e done =
      let (users, profiles) = insert_account-rows ids dto w.db db e in
      let (keeps_users, keeps_profiles) =
        issue_tokens-frame (new_student c env crypto compare ids dto) (record w { db = db }) in
      (keeps_users ∙ users, keeps_profiles ∙ profiles)
  signup-rows ids dto w (err x) s e done = cc

  rolled_over-incomplete :
      (now : Date) (p : StudentProfile) → p.profile_status ≡ incomplete → rolled_over now p ≡ none
  unfolding rolled_over
  rolled_over-incomplete now p e =
      elim (Bool-cases (is_year p.profile_year (get_current_school_year now))) [
        | inl t ↦ rw t
        | inr f ↦ rw (f, e)
      ]

  rollover-incomplete :
      (p : StudentProfile) (w : World)
      → p.profile_status ≡ incomplete
      → apply_yearly_rollover c env (some p) w ≡ (ok (some incomplete), w)
  unfolding apply_yearly_rollover apply_rollover ◌>>=◌
  rollover-incomplete p w e = rw (rolled_over-incomplete env.now p e, e) refl

  tokens_returned :
      (r : Result (List RefreshToken)) (s : Session) (w : World) (rows : List RefreshToken)
      → r ≡ ok rows
      → ((try_write (λ db. map_result (λ rows. record db { refresh_tokens = rows }) r) >> pure s)
          w).0
        ≡ ok s
  unfolding ◌>>=◌
  tokens_returned (ok rows') s w rows e = refl
  tokens_returned (err x) s w rows e = cc

  issue_tokens-ok :
      (tokens : (r : RefreshToken) (rows : List RefreshToken)
        → c.insert_fails RefreshToken r rows ≡ none)
      (user : User) (w : World)
      → (issue_tokens c env crypto user w).0 ≡ ok (session_of user)
  unfolding issue_tokens ◌>>=◌
  issue_tokens-ok tokens user w =
      tokens_returned _ (session_of user) w (w.db.refresh_tokens ++ new_row env crypto user.id ∷ [])
        (law.create_lem RefreshToken _ w.db.refresh_tokens
          ∙ ap (λ o. created o (w.db.refresh_tokens ++ new_row env crypto user.id ∷ []))
              (tokens (new_row env crypto user.id) w.db.refresh_tokens))

  -- what the concurrent calls give
  entered :
      (profile : Option StudentProfile) (user : User) (w : World)
      → apply_yearly_rollover c env profile w ≡ (ok (some incomplete), w)
      → (issue_tokens c env crypto user w).0 ≡ ok (session_of user)
      → ((apply_yearly_rollover c env profile >>= λ status.
            (issue_tokens c env crypto user >>= λ session.
            pure {A = Session × Option ProfileStatus} (session, status)))
          w).0
        ≡ ok (session_of user, some incomplete)
  unfolding ◌>>=◌
  entered profile user w e f = rw (e, f) refl

  -- a user whose profile is new gets in
  enter-ok :
      (tokens : (r : RefreshToken) (rows : List RefreshToken)
        → c.insert_fails RefreshToken r rows ≡ none)
      (user : User) (p : StudentProfile) (w : World)
      → find? (λ q. q.user_id == user.id) w.db.profiles ≡ some p
      → p.profile_status ≡ incomplete
      → (enter c env crypto compare user w).0 ≡ ok (session_of user, some incomplete)
  unfolding enter ◌>>=◌
  enter-ok tokens user p w found status =
      entered (c.find_first StudentProfile (λ q. q.user_id == user.id) w.db.profiles) user w
        (rw (law.find_first_lem StudentProfile (λ q. q.user_id == user.id) w.db.profiles, found)
          (rollover-incomplete p w status))
        (issue_tokens-ok tokens user w)

  login_as-ok :
      (dto : LoginDto) (found : Option User) (user : User) (w : World)
      → found ≡ some user
      → compare dto.password user.password_hash ≡ true
      → (login_as c env crypto compare dto found w).0 ≡ (enter c env crypto compare user w).0
  login_as-ok dto none user w e opened = cc
  login_as-ok dto (some other) user w e opened = let same : other ≡ user = cc in rw (same, opened)

-- A student whose signup succeeds can log in with the same email and password, at any later time of that
-- database and whatever the second request draws, and is told that the profile is incomplete; where
-- a hash opens to its password, no account had the email, no profile had the new user, and the
-- database refuses no refresh token.
pub signup-login :
    (c : Client) (law : IsClient c) (compare : Text → Text → Bool) (env env' : Env)
    (crypto crypto' : Crypto)
    (opens_hash : (password : Text) → compare password (crypto.hash_password password) ≡ true)
    (tokens : (r : RefreshToken) (rows : List RefreshToken)
      → c.insert_fails RefreshToken r rows ≡ none)
    (ids : AccountIds) (dto : SignupDto) (w : World) (s : Session)
    → find? (λ u. text_eq u.email dto.email) w.db.users ≡ none
    → find? (λ p. p.user_id == ids.user) w.db.profiles ≡ none
    → (signup c env crypto compare ids dto w).0 ≡ ok s
    → (login c env' crypto' compare
        (record { email = dto.email; password = dto.password })
        (signup c env crypto compare ids dto w).1).0
      ≡ ok (
        session_of c law env' crypto' compare (new_student c env crypto compare ids dto),
        some incomplete,
      )
unfolding signup login ◌>>=◌
signup-login c law compare env env' crypto crypto' opens_hash tokens ids dto w s new_email new_user
      done =
    let user : User = new_student c env crypto compare ids dto in
    let profile : StudentProfile = new_profile c env crypto compare ids in
    let v : World = (signup c env crypto compare ids dto w).1 in
    let (users, profiles) =
      signup-rows c law env crypto compare ids dto w
        (insert_account c env crypto compare ids dto w.db) s refl done in
    let found : c.find_first User (λ u. text_eq u.email dto.email) v.db.users ≡ some user =
      law.find_first_lem User (λ u. text_eq u.email dto.email) v.db.users
      ∙ ap (find? (λ u. text_eq u.email dto.email)) users
      ∙ find?-added (λ (u : User). text_eq u.email dto.email) w.db.users user new_email
          (text_eq_refl dto.email) in
    let owned : find? (λ p. p.user_id == user.id) v.db.profiles ≡ some profile =
      ap (find? (λ p. p.user_id == ids.user)) profiles
      ∙ find?-added (λ (p : StudentProfile). p.user_id == ids.user) w.db.profiles profile new_user
          (ground arith) in
    login_as-ok c law env' crypto' compare (record { email = dto.email; password = dto.password })
      (c.find_first User (λ u. text_eq u.email dto.email) v.db.users) user v found
      (opens_hash dto.password)
    ∙ enter-ok c law env' crypto' compare tokens user profile v owned refl
