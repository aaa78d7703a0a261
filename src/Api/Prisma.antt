-- ===== src/Api/Prisma.antt =====
-- The database client as an interface: the calls that the services make, and their documented
-- behaviour. A table is the list of its rows, in the order in which the database returns them.
-- `findUnique` is `find_first` with a unique key; `update` is `update_many` with one.
pub mod Tables
use campus_internship.Prelude.{
  ℕ, ◌≡◌, refl, ◌++◌, ◌∷◌, [], Bool, true, Option, none, some, List, if◌then◌else◌, length, select,
}
use campus_internship.Api.Http.{Result, ok, err, PrismaCode, prisma}
use campus_internship.Api.World.{World, M}

pub record Client : Type 1 where
  pub find_first : (A : Type 0) → (A → Bool) → List A → Option A
  pub find_many : (A : Type 0) → (A → Bool) → List A → List A
  pub count : (A : Type 0) → (A → Bool) → List A → ℕ
  pub order_by : (A : Type 0) → (A → A → Bool) → List A → List A
  -- whether a constraint refuses a row among the other rows, or its write fails otherwise
  pub insert_fails : (A : Type 0) → A → List A → Option PrismaCode
  pub create : (A : Type 0) → A → List A → Result (List A)
  pub create_many : (A : Type 0) → List A → List A → List A
  pub upsert : (A : Type 0) → (A → Bool) → (A → A) → A → List A → Result (List A)
  pub update_many : (A : Type 0) → (A → Bool) → (A → A) → List A → ℕ × List A
  pub delete_many : (A : Type 0) → (A → Bool) → List A → ℕ × List A
  pub transaction : (A : Type 0) → M A → M A

unfoldable pub find? {ℓ} : {A : Type ℓ} → (A → Bool) → List A → Option A
find? p [] = none
find? p (x ∷ xs) = let rest = find? p xs in if p x then some x else rest

unfoldable pub update_where {ℓ} : {A : Type ℓ} → (A → Bool) → (A → A) → List A → List A
update_where p f [] = []
update_where p f (x ∷ xs) = (if p x then f x else x) ∷ update_where p f xs

unfoldable pub delete_where {ℓ} : {A : Type ℓ} → (A → Bool) → List A → List A
delete_where p [] = []
delete_where p (x ∷ xs) = let rest = delete_where p xs in if p x then rest else x ∷ rest

-- What a transaction wrote to the database is undone if its body throws.
abbrev pub keep_on_success {ℓ} : {A : Type ℓ} → World → Result A → World → Result A × World
keep_on_success before (ok a) w = (ok a, w)
keep_on_success before (err e) w = (err e, record w { db = before.db })

abbrev pub rollback {ℓ} : {A : Type ℓ} → M A → M A
rollback m w = keep_on_success w (m w).0 (m w).1

abbrev pub created {ℓ} : {A : Type ℓ} → Option PrismaCode → A → Result A
created none rows = ok rows
created (some code) rows = err (prisma code)

-- the row that meets the test is updated in place, and otherwise the new row is inserted
abbrev pub upserted :
    {A : Type 0}
    → (A → List A → Option PrismaCode)
    → (A → Bool)
    → (A → A)
    → A
    → List A
    → Option A
    → Result (List A)
upserted refused p f r rows none = created (refused r rows) (rows ++ r ∷ [])
upserted refused p f r rows (some x) =
    created (refused (f x) (delete_where p rows)) (update_where p f rows)

-- The documented behaviour. `order_by` and `insert_fails` are left open.
pub record IsClient (c : Client) : Type 1 where
  pub find_first_lem :
      (A : Type 0) (p : A → Bool) (rows : List A) → c.find_first A p rows ≡ find? p rows
  pub find_many_lem :
      (A : Type 0) (p : A → Bool) (rows : List A) → c.find_many A p rows ≡ select p rows
  pub count_lem :
      (A : Type 0) (p : A → Bool) (rows : List A) → c.count A p rows ≡ length (select p rows)
  pub create_lem :
      (A : Type 0) (r : A) (rows : List A)
      → c.create A r rows ≡ created (c.insert_fails A r rows) (rows ++ r ∷ [])
  pub create_many_lem : (A : Type 0) (rs rows : List A) → c.create_many A rs rows ≡ rows ++ rs
  pub upsert_lem :
      (A : Type 0) (p : A → Bool) (f : A → A) (r : A) (rows : List A)
      → c.upsert A p f r rows ≡ upserted (c.insert_fails A) p f r rows (find? p rows)
  pub update_many_lem :
      (A : Type 0) (p : A → Bool) (f : A → A) (rows : List A)
      → c.update_many A p f rows ≡ (length (select p rows), update_where p f rows)
  pub delete_many_lem :
      (A : Type 0) (p : A → Bool) (rows : List A)
      → c.delete_many A p rows ≡ (length (select p rows), delete_where p rows)
  pub transaction_lem : (A : Type 0) (m : M A) (w : World) → c.transaction A m w ≡ rollback m w

-- A client that computes, for any way to order rows and to refuse insertions.
abbrev pub reference :
    ((A : Type 0) → (A → A → Bool) → List A → List A)
    → ((A : Type 0) → A → List A → Option PrismaCode)
    → Client
reference order refuses = record {
  find_first = λ A p rows. find? p rows;
  find_many = λ A p rows. select p rows;
  count = λ A p rows. length (select p rows);
  order_by = order;
  insert_fails = refuses;
  create = λ A r rows. created (refuses A r rows) (rows ++ r ∷ []);
  create_many = λ A rs rows. rows ++ rs;
  upsert = λ A p f r rows. upserted (refuses A) p f r rows (find? p rows);
  update_many = λ A p f rows. (length (select p rows), update_where p f rows);
  delete_many = λ A p rows. (length (select p rows), delete_where p rows);
  transaction = λ A m w. rollback m w;
}

pub reference-IsClient :
    (order : (A : Type 0) → (A → A → Bool) → List A → List A)
    (refuses : (A : Type 0) → A → List A → Option PrismaCode)
    → IsClient (reference order refuses)
reference-IsClient order refuses = record {
  find_first_lem = λ A p rows. refl;
  find_many_lem = λ A p rows. refl;
  count_lem = λ A p rows. refl;
  create_lem = λ A r rows. refl;
  create_many_lem = λ A rs rows. refl;
  upsert_lem = λ A p f r rows. refl;
  update_many_lem = λ A p f rows. refl;
  delete_many_lem = λ A p rows. refl;
  transaction_lem = λ A m w. refl;
}

-- The documented behaviour determines a client, up to what is left open.
pub IsClient-eq : (c : Client) → IsClient c → c ≡ reference c.order_by c.insert_fails
IsClient-eq c h = λ i. record {
  find_first = λ A p rows. h.find_first_lem A p rows i;
  find_many = λ A p rows. h.find_many_lem A p rows i;
  count = λ A p rows. h.count_lem A p rows i;
  order_by = c.order_by;
  insert_fails = c.insert_fails;
  create = λ A r rows. h.create_lem A r rows i;
  create_many = λ A rs rows. h.create_many_lem A rs rows i;
  upsert = λ A p f r rows. h.upsert_lem A p f r rows i;
  update_many = λ A p f rows. h.update_many_lem A p f rows i;
  delete_many = λ A p rows. h.delete_many_lem A p rows i;
  transaction = λ A m w. h.transaction_lem A m w i;
}
