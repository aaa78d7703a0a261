-- ===== src/Api/Sessions/Accounts.antt =====
-- `signup` and `login` of modules/auth/auth.service.ts.
pub mod Entry
use campus_internship.Prelude.{
  ℕ, ◌==◌, String, Bool, true, false, Option, none, some, List, [], ◌∷◌, Text, text_eq,
  if◌then◌else◌,
}
use campus_internship.Shared.Enums.{student, ProfileStatus, incomplete}
use campus_internship.Api.Http.{Error, Result, ok, err, unauthorized}
use campus_internship.Api.Schema.{Uuid, User, StudentProfile, Db}
use campus_internship.Api.World.{
  Env, M, ◌>>=◌, ◌>>◌, pure, throw, query, try_write, log, login_failed, map_result,
}
use campus_internship.Api.Prisma.{Client}
use campus_internship.Api.Profiles.Rollover.{apply_yearly_rollover}
use campus_internship.Api.Sessions.{Crypto, Session, issue_tokens}

-- `SignupDto`
pub record SignupDto : Type 0 where
  pub email : Text
  pub password : Text
  pub first_name : Text
  pub last_name : Text

-- `LoginDto`
pub record LoginDto : Type 0 where
  pub email : Text
  pub password : Text

pub record AccountIds : Type 0 where
  pub user : Uuid
  pub profile : Uuid

abbrev pub login_failure : Error
login_failure = unauthorized "Email ou mot de passe incorrect"

-- `compare` is `bcrypt.compare`
module _ (c : Client) (env : Env) (crypto : Crypto) (compare : Text → Text → Bool) where
  abbrev pub new_student : AccountIds → SignupDto → User
  new_student ids dto = record {
    id = ids.user;
    email = dto.email;
    password_hash = crypto.hash_password dto.password;
    first_name = dto.first_name;
    last_name = dto.last_name;
    roles = student ∷ [];
  }

  abbrev pub new_profile : AccountIds → StudentProfile
  new_profile ids = record {
    id = ids.profile;
    user_id = ids.user;
    phone = none;
    personal_email = none;
    promotion = none;
    profile_status = incomplete;
    profile_year = none;
    refusal_reason = none;
    updated_at = env.now;
  }

  abbrev pub inserted_account : Db → Result (List StudentProfile) → Result (List User) → Result Db
  inserted_account db profiles (ok users) =
      map_result (λ rows. record db { users = users; profiles = rows }) profiles
  inserted_account db profiles (err e) = err e

  -- the nested write of `prisma.user.create`
  unfoldable pub insert_account : AccountIds → SignupDto → Db → Result Db
  insert_account ids dto db =
      inserted_account db (c.create StudentProfile (new_profile ids) db.profiles)
        (c.create User (new_student ids dto) db.users)

  -- `signup`
  unfoldable pub signup : AccountIds → SignupDto → M Session
  signup ids dto = do
    try_write (insert_account ids dto)
    issue_tokens c env crypto (new_student ids dto)

  -- the two refusals of `login`
  unfoldable pub refuse_login : Text → M (Session × Option ProfileStatus)
  refuse_login email = do log (login_failed email); throw login_failure

  -- the concurrent calls of `login`, which write different tables
  unfoldable pub enter : User → M (Session × Option ProfileStatus)
  enter user = do
    profile ← query (λ db. c.find_first StudentProfile (λ p. p.user_id == user.id) db.profiles)
    status ← apply_yearly_rollover c env profile
    session ← issue_tokens c env crypto user
    pure (session, status)

  abbrev pub login_as : LoginDto → Option User → M (Session × Option ProfileStatus)
  login_as dto none = refuse_login dto.email
  login_as dto (some user) =
      if compare dto.password user.password_hash then enter user else refuse_login dto.email

  -- `login`
  unfoldable pub login : LoginDto → M (Session × Option ProfileStatus)
  login dto = do
    found ← query (λ db. c.find_first User (λ u. text_eq u.email dto.email) db.users)
    login_as dto found
