-- ===== src/Api/World/Preserves.antt =====
-- Actions that move the database along a relation, one rule for each way to build an action.
use campus_internship.Prelude.{Bool, true, false, Option, none, some, if◌then◌else◌}
use campus_internship.Api.Http.{Error, Result, ok, err}
use campus_internship.Api.Schema.{Db}
use campus_internship.Api.World.{
  World, LogEntry, M, continue, caught, pure, throw, query, log, or_throw, require, lift, catch_as,
  ◌>>=◌,
}

-- a relation between the database before and after
pub record IsPreorder (R : Db → Db → Type 0) : Type 0 where
  pub stay : (a : Db) → R a a
  pub chain : (a b c : Db) → R a b → R b c → R a c

-- whether it returns or throws, `m` moves the database along `R`
pub record Preserves {A : Type 0} (R : Db → Db → Type 0) (m : M A) : Type 0 where
  pub at : (w : World) → R w.db (m w).1.db

module _ {A : Type 0} {R : Db → Db → Type 0} (p : IsPreorder R) where
  pub Preserves-pure : (a : A) → Preserves R (pure a)
  unfolding ◌>>=◌
  Preserves-pure a = record { at = λ w. p.stay w.db }

  pub Preserves-throw : (e : Error) → Preserves R (throw {A = A} e)
  unfolding ◌>>=◌
  Preserves-throw e = record { at = λ w. p.stay w.db }

  pub Preserves-query : (f : Db → A) → Preserves R (query f)
  unfolding ◌>>=◌
  Preserves-query f = record { at = λ w. p.stay w.db }

  pub Preserves-lift : (r : Result A) → Preserves R (lift r)
  unfolding ◌>>=◌
  Preserves-lift r = record { at = λ w. p.stay w.db }

  pub Preserves-or_throw : (o : Option A) (e : Error) → Preserves R (or_throw o e)
  unfolding ◌>>=◌
  Preserves-or_throw none e = record { at = λ w. p.stay w.db }
  Preserves-or_throw (some a) e = record { at = λ w. p.stay w.db }

  pub Preserves-if :
      (b : Bool) (m n : M A) → Preserves R m → Preserves R n → Preserves R (if b then m else n)
  Preserves-if true m n h k = h
  Preserves-if false m n h k = k

  pub Preserves-catch_as :
      (l : LogEntry) (e : Error) (m : M A) → Preserves R m → Preserves R (catch_as l e m)
  unfolding ◌>>=◌
  Preserves-catch_as l e m h = record { at = λ w. go w (m w).0 (m w).1 (h.at w) }
    where
      go : (w : World) (r : Result A) (w' : World) → R w.db w'.db → R w.db (caught l e r w').1.db
      go w (ok a) w' s = s
      go w (err e') w' s = s

module _ {R : Db → Db → Type 0} (p : IsPreorder R) where
  pub Preserves-log : (l : LogEntry) → Preserves R (log l)
  unfolding ◌>>=◌
  Preserves-log l = record { at = λ w. p.stay w.db }

  pub Preserves-require : (b : Bool) (e : Error) → Preserves R (require b e)
  unfolding ◌>>=◌
  Preserves-require true e = record { at = λ w. p.stay w.db }
  Preserves-require false e = record { at = λ w. p.stay w.db }

module _ {A B : Type 0} {R : Db → Db → Type 0} (p : IsPreorder R) where
  pub Preserves-bind :
      (m : M A) (f : A → M B)
      → Preserves R m
      → ((a : A) → Preserves R (f a))
      → Preserves R (m >>= f)
  unfolding ◌>>=◌
  Preserves-bind m f h k = record { at = λ w. go w (m w).0 (m w).1 (h.at w) }
    where
      go : (w : World) (r : Result A) (w' : World) → R w.db w'.db → R w.db (continue r f w').1.db
      go w (ok a) w' s = p.chain w.db w'.db (f a w').1.db s ((k a).at w')
      go w (err e) w' s = s

module _ {A B : Type 0} {R : Db → Db → Type 0} where
  pub Preserves-option :
      (o : Option A) (m : M B) (f : A → M B)
      → Preserves R m
      → ((a : A) → Preserves R (f a))
      → Preserves R (elim o [ none ↦ m | some a ↦ f a ])
  Preserves-option none m f h k = h
  Preserves-option (some a) m f h k = k a

pub ruleset preserves_rules = (
  Preserves-pure, Preserves-throw, Preserves-query, Preserves-lift, Preserves-or_throw,
  Preserves-if, Preserves-catch_as, Preserves-log, Preserves-require, Preserves-bind,
  Preserves-option,
)
