-- ===== src/Api/World/ReadOnly.antt =====
-- Actions that read the database and never write it; they may send emails and log.
use campus_internship.Prelude.{
  ◌≡◌, refl, sym, ap, ◌∙◌, Bool, true, false, Option, none, some, if◌then◌else◌,
}
use campus_internship.Api.Http.{Error, Result, ok, err}
use campus_internship.Api.Schema.{Db}
use campus_internship.Api.World.{
  World, LogEntry, M, continue, pure, throw, query, log, or_throw, require, lift, try_write, ◌>>=◌,
  ◌>>◌,
}

-- `m` keeps the database, and what it returns or throws depends on the database alone
pub record ReadOnly {A : Type 0} (m : M A) : Type 0 where
  pub keeps : (w : World) → (m w).1.db ≡ w.db
  pub depends : (w w' : World) → w.db ≡ w'.db → (m w).0 ≡ (m w').0

module _ {A : Type 0} where
  pub ReadOnly-pure : (a : A) → ReadOnly (pure a)
  unfolding ◌>>=◌
  ReadOnly-pure a = record { keeps = λ w. refl; depends = λ w w' e. refl }

  pub ReadOnly-throw : (e : Error) → ReadOnly (throw {A = A} e)
  unfolding ◌>>=◌
  ReadOnly-throw e = record { keeps = λ w. refl; depends = λ w w' q. refl }

  pub ReadOnly-query : (f : Db → A) → ReadOnly (query f)
  unfolding ◌>>=◌
  ReadOnly-query f = record { keeps = λ w. refl; depends = λ w w' e. ap (λ db. ok (f db)) e }

  pub ReadOnly-lift : (r : Result A) → ReadOnly (lift r)
  unfolding ◌>>=◌
  ReadOnly-lift r = record { keeps = λ w. refl; depends = λ w w' e. refl }

  pub ReadOnly-or_throw : (o : Option A) (e : Error) → ReadOnly (or_throw o e)
  unfolding ◌>>=◌
  ReadOnly-or_throw none e = record { keeps = λ w. refl; depends = λ w w' q. refl }
  ReadOnly-or_throw (some a) e = record { keeps = λ w. refl; depends = λ w w' q. refl }

  pub ReadOnly-if : (b : Bool) (m n : M A) → ReadOnly m → ReadOnly n → ReadOnly (if b then m else n)
  ReadOnly-if true m n h k = h
  ReadOnly-if false m n h k = k

pub ReadOnly-log : (l : LogEntry) → ReadOnly (log l)
unfolding ◌>>=◌
ReadOnly-log l = record { keeps = λ w. refl; depends = λ w w' e. refl }

pub ReadOnly-require : (b : Bool) (e : Error) → ReadOnly (require b e)
unfolding ◌>>=◌
ReadOnly-require true e = record { keeps = λ w. refl; depends = λ w w' q. refl }
ReadOnly-require false e = record { keeps = λ w. refl; depends = λ w w' q. refl }

module _ {A B : Type 0} where
  pub ReadOnly-bind :
      (m : M A) (f : A → M B) → ReadOnly m → ((a : A) → ReadOnly (f a)) → ReadOnly (m >>= f)
  unfolding ◌>>=◌
  ReadOnly-bind m f h k = record {
    keeps = λ w. keep w (m w).0 (m w).1 (h.keeps w);
    depends = λ w w' e.
        depend (m w).0 (m w').0 (m w).1 (m w').1 (h.depends w w' e)
          (h.keeps w ∙ e ∙ sym (h.keeps w'));
  }
    where
      keep : (w : World) (r : Result A) (v : World) → v.db ≡ w.db → (continue r f v).1.db ≡ w.db
      keep w (ok a) v e = (k a).keeps v ∙ e
      keep w (err x) v e = e

      depend :
          (r r' : Result A) (v v' : World)
          → r ≡ r'
          → v.db ≡ v'.db
          → (continue r f v).0 ≡ (continue r' f v').0
      depend (ok a) r' v v' same e = rw (sym same, (k a).depends v v' e)
      depend (err x) r' v v' same e = rw (sym same)

  pub ReadOnly-option :
      (o : Option A) (m : M B) (f : A → M B)
      → ReadOnly m
      → ((a : A) → ReadOnly (f a))
      → ReadOnly (elim o [ none ↦ m | some a ↦ f a ])
  ReadOnly-option none m f h k = h
  ReadOnly-option (some a) m f h k = k a

  -- the second action goes on from where the first one arrived
  pub bind-ok :
      (m : M A) (f : A → M B) (a : A) (w v : World) → m w ≡ (ok a, v) → (m >>= f) w ≡ f a v
  unfolding ◌>>=◌
  bind-ok m f a w v e = rw e

  pub bind-err :
      (m : M A) (f : A → M B) (x : Error) (w v : World)
      → m w ≡ (err x, v)
      → (m >>= f) w ≡ (err x, v)
  unfolding ◌>>=◌
  bind-err m f x w v e = rw e

  -- two actions that read, the first of which returns: the answer is that of the second
  pub bind-ReadOnly :
      (m : M A) (f : A → M B) (a : A) (w : World)
      → ReadOnly m
      → ReadOnly (f a)
      → (m w).0 ≡ ok a
      → (((m >>= f) w).0 ≡ (f a w).0) × (((m >>= f) w).1.db ≡ w.db)
  bind-ReadOnly m f a w h k e =
      let step : (m >>= f) w ≡ f a (m w).1 = bind-ok m f a w (m w).1 (ap (λ r. (r, (m w).1)) e) in
      (
        ap (λ x. x.0) step ∙ k.depends (m w).1 w (h.keeps w),
        ap (λ x. x.1.db) step ∙ k.keeps (m w).1 ∙ h.keeps w,
      )

-- the database after a write that may be refused
abbrev pub db_after : Result Db → Db → Db
db_after (ok db) before = db
db_after (err e) before = before

module _ {A : Type 0} (k : M A) where
  -- a write, and an action that only reads
  pub write_then-ReadOnly :
      (r : Result Db) (w : World)
      → ReadOnly k
      → ((try_write (λ db. r) >> k) w).1.db ≡ db_after r w.db
  unfolding ◌>>=◌
  write_then-ReadOnly (ok db) w h = h.keeps (record w { db = db })
  write_then-ReadOnly (err e) w h = refl

  pub write_then-ok :
      (r : Result Db) (w : World) (a : A)
      → ((try_write (λ db. r) >> k) w).0 ≡ ok a
      → (db : Db) × ((r ≡ ok db) × ((k (record w { db = db })).0 ≡ ok a))
  unfolding ◌>>=◌
  write_then-ok (ok db) w a e = (db, (refl, e))
  write_then-ok (err x) w a e = cc

pub ruleset read_only_rules = (
  ReadOnly-pure, ReadOnly-throw, ReadOnly-query, ReadOnly-lift, ReadOnly-or_throw, ReadOnly-if,
  ReadOnly-log, ReadOnly-require, ReadOnly-bind, ReadOnly-option,
)
