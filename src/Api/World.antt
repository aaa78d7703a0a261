-- ===== src/Api/World.antt =====
-- What a request handler reads and changes, and the actions that handlers are made of.
pub mod Preserves
pub mod ReadOnly
use campus_internship.Prelude.{
  String, Bool, true, false, Option, none, some, List, [], ◌∷◌, ◌++◌, Text,
}
use campus_internship.Shared.Calendar.{Date}
use campus_internship.Api.Http.{Error, Result, ok, err}
use campus_internship.Api.Schema.{Db, Uuid}

-- `SendEmailInput`, its `cc` normalised
pub record Email : Type 0 where
  pub to : Text
  pub cc : List Text
  pub subject : String
  pub body : Text

-- the calls of a logger
pub data LogEntry : Type 0 where
  unreadable_snapshot : Uuid → LogEntry
  organism_creation_failed : LogEntry
  tutor_creation_failed : LogEntry
  no_admin_to_notify : LogEntry
  notification_failed : LogEntry
  email_failed : Text → LogEntry
  login_failed : Text → LogEntry

pub record World : Type 0 where
  pub db : Db
  pub outbox : List Email
  pub logs : List LogEntry

-- The platform that one request meets: the clock, and the functions of JavaScript and of libraries
-- that the services call. `deliver` says whether the mail provider accepts an email.
pub record Env : Type 0 where
  pub now : Date
  pub to_iso_string : Date → Text
  pub is_datetime : Text → Bool
  pub to_upper_case : Text → Text
  pub deliver : Email → Bool

-- An asynchronous method: it returns or throws, and what it wrote before stays written.
abbrev pub M {ℓ} : Type ℓ → Type ℓ
M A = World → Result A × World

abbrev pub continue {ℓ κ} :
    {A : Type ℓ} {B : Type κ} → Result A → (A → World → Result B × World) → World → Result B × World
continue (ok a) f w = f a w
continue (err e) f w = (err e, w)

unfoldable pub pure {ℓ} : {A : Type ℓ} → A → M A
pure a w = (ok a, w)

unfoldable pub throw {ℓ} : {A : Type ℓ} → Error → M A
throw e w = (err e, w)

-- a statement that reads the database
unfoldable pub query {ℓ} : {A : Type ℓ} → (Db → A) → M A
query f w = (ok (f w.db), w)

-- a statement that writes it
unfoldable pub write {ℓ} : {A : Type ℓ} → (Db → A × Db) → M A
write f w = (ok (f w.db).0, record w { db = (f w.db).1 })

-- a write that the database may refuse
unfoldable pub try_write : (Db → Result Db) → M (Unit {0})
try_write f w = elim (f w.db) [ ok db ↦ (ok tt, record w { db = db }) | err e ↦ (err e, w) ]

unfoldable pub log : LogEntry → M (Unit {0})
log l w = (ok tt, record w { logs = w.logs ++ l ∷ [] })

unfoldable pub or_throw {ℓ} : {A : Type ℓ} → Option A → Error → M A
or_throw none e w = (err e, w)
or_throw (some a) e w = (ok a, w)

unfoldable pub require : Bool → Error → M (Unit {0})
require true e w = (ok tt, w)
require false e w = (err e, w)

-- a computation that may throw and has no other effect
unfoldable pub lift {ℓ} : {A : Type ℓ} → Result A → M A
lift r w = (r, w)

abbrev pub caught {ℓ} : {A : Type ℓ} → LogEntry → Error → Result A → World → Result A × World
caught l e (ok a) w = (ok a, w)
caught l e (err e') w = (err e, record w { logs = w.logs ++ l ∷ [] })

-- `try { … } catch { … }`, where the handler throws another error after a log entry
unfoldable pub catch_as {ℓ} : {A : Type ℓ} → LogEntry → Error → M A → M A
catch_as l e m w = caught l e (m w).0 (m w).1

infixl 5 ◌>>=◌ ◌>>◌
-- opening this opens the actions above too
unfoldable pub ◌>>=◌ {ℓ κ} : {A : Type ℓ} {B : Type κ} → M A → (A → M B) → M B
unfolding pure throw query write try_write log or_throw require lift catch_as
◌>>=◌ m f w = continue (m w).0 f (m w).1

abbrev pub ◌>>◌ {ℓ κ} : {A : Type ℓ} {B : Type κ} → M A → M B → M B
m >> k = m >>= λ _. k

abbrev pub map_result {ℓ κ} : {A : Type ℓ} {B : Type κ} → (A → B) → Result A → Result B
map_result f (ok a) = ok (f a)
map_result f (err e) = err e
