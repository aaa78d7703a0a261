-- ===== src/Api/Referents/Creation.antt =====
-- What the creation of a referent does to the accounts.
use campus_internship.Prelude.{
  ℕ, ◌≡◌, ◌==◌, ◌⊎◌, ◌++◌, refl, ap, ◌∙◌, Bool, false, Option, none, any, some, List, [], ◌∷◌, map,
  arith, if◌then◌else◌, Bool-cases, inl, inr, Text,
}
use campus_internship.Shared.Enums.{referent, role_eq}
use campus_internship.Api.Http.{PrismaCode, Result, ok, err, js_error, prisma, p2025}
use campus_internship.Api.Schema.{Uuid, User, ReferentProfile, Db}
use campus_internship.Api.World.{World, M, ◌>>=◌, try_write, map_result, pure, query, or_throw}
use campus_internship.Api.World.ReadOnly.{ReadOnly, read_only_rules, db_after, write_then-ReadOnly}
use campus_internship.Api.Prisma.{Client, IsClient, find?, update_where, created}
use campus_internship.Api.Sessions.{Crypto}
use campus_internship.Api.Referents.{
  CreateReferentRequest, ReferentListItem, Collation, NewIds, same_person, with_referent_role,
  add_referent, insert_referent, create_for, create, list_item,
}

-- what identifies a person and lets them in: all of an account but its roles
pub record Account : Type 0 where
  pub id : Uuid
  pub email : Text
  pub password_hash : Text
  pub first_name : Text
  pub last_name : Text

abbrev pub account : User → Account
account u = record {
  id = u.id;
  email = u.email;
  password_hash = u.password_hash;
  first_name = u.first_name;
  last_name = u.last_name;
}

role-account : (u : User) → account (with_referent_role u) ≡ account u
role-account u = elim (Bool-cases (any (role_eq referent) u.roles)) [ inl t ↦ rw t | inr f ↦ rw f ]

module _ (c : Client) (law : IsClient c) (text : Collation) (crypto : Crypto) (ids : NewIds) where
  with_role-account :
      (p : User → Bool) (users : List User)
      → map account (update_where p with_referent_role users) ≡ map account users
  unfolding update_where
  with_role-account p [] = refl
  with_role-account p (u ∷ users) =
      let here : account (if p u then with_referent_role u else u) ≡ account u =
        elim (Bool-cases (p u)) [ inl t ↦ rw t (role-account u) | inr f ↦ rw f ] in
      rw (here, with_role-account p users)

  finish_users :
      (n : ℕ) (users : List User) (r : Result (List ReferentProfile)) (db after : Db)
      → (if n == 0
          then err (prisma p2025)
          else map_result (λ referents. record db { users = users; referents = referents }) r)
        ≡ ok after
      → after.users ≡ users
  finish_users n users (ok rows) db after e = ground arith
  finish_users n users (err x) db after e = ground arith

  abbrev updated : User → List User → List User
  updated existing = update_where (λ u. u.id == existing.id) with_referent_role

  add_referent-users :
      (existing : User) (db after : Db)
      → add_referent c text crypto ids existing db ≡ ok after
      → after.users ≡ updated existing db.users
  unfolding add_referent
  add_referent-users existing db after e =
      finish_users _ _ _ db after e
      ∙ ap (λ r. r.1)
          (law.update_many_lem User (λ u. u.id == existing.id) with_referent_role db.users)

  -- the accounts after the branch of an existing user
  abbrev from_existing : CreateReferentRequest → User → M ReferentListItem
  from_existing dto existing = create_for c text crypto ids dto (some existing)

  abbrev pub profile_answer : User → M ReferentListItem
  profile_answer existing =
      query (λ db. c.find_first ReferentProfile (λ r. r.user_id == existing.id) db.referents)
      >>= λ found.
          (or_throw found (js_error "referentProfile is null") >>= λ profile.
          pure (list_item profile existing))

  pub profile_answer-ReadOnly : (existing : User) → ReadOnly (profile_answer existing)
  profile_answer-ReadOnly existing = search (read_only_rules) depth 12

  add_referent-account :
      (existing : User) (db : Db) (r : Result Db)
      → add_referent c text crypto ids existing db ≡ r
      → map account (db_after r db).users ≡ map account db.users
  add_referent-account existing db (ok after) e =
      ap (map account) (add_referent-users existing db after e)
      ∙ with_role-account (λ u. u.id == existing.id) db.users
  add_referent-account existing db (err x) e = refl

  existing-account :
      (dto : CreateReferentRequest) (existing : User) (w : World)
      → map account (from_existing dto existing w).1.db.users ≡ map account w.db.users
  unfolding create_for ◌>>=◌
  existing-account dto existing w = elim (Bool-cases (same_person c text dto existing)) [
    | inl t ↦ rw t (
        ap (λ (db : Db). map account db.users)
          (write_then-ReadOnly (profile_answer existing)
            (add_referent c text crypto ids existing w.db) w (profile_answer-ReadOnly existing))
        ∙ add_referent-account existing w.db (add_referent c text crypto ids existing w.db) refl)
    | inr f ↦ rw f
  ]

  -- what a creation does to the accounts, their roles aside: it keeps them, or adds one at their end
  abbrev pub AccountsKept : CreateReferentRequest → List User → List User → Type 0
  AccountsKept dto before users =
      (map account users ≡ map account before)
      ⊎ ((find? (λ u. text.same_email u.email dto.email) before ≡ none)
          × ((u : User) × ((users ≡ before ++ u ∷ [])
                × ((u.email ≡ dto.email) × (u.roles ≡ referent ∷ [])))))

  abbrev new_account : CreateReferentRequest → User
  new_account dto = record {
    id = ids.user;
    email = dto.email;
    password_hash = crypto.hash_password crypto.random_token;
    first_name = dto.first_name;
    last_name = dto.last_name;
    roles = referent ∷ [];
  }

  abbrev inserted : CreateReferentRequest → Db → Result (List User) → Result Db
  inserted dto db (ok users) =
      map_result (λ referents. record db { users = users; referents = referents })
        (c.create ReferentProfile
          (record { id = ids.profile; user_id = ids.user; archived = false }) db.referents)
  inserted dto db (err e) = err e

  inserted-users :
      (db : Db) (users : List User) (r : Result (List ReferentProfile))
      → ((db_after
            (map_result (λ referents. record db { users = users; referents = referents }) r)
            db).users
          ≡ users)
        ⊎ ((db_after
              (map_result (λ referents. record db { users = users; referents = referents }) r)
              db).users
            ≡ db.users)
  inserted-users db users (ok rows) = inl refl
  inserted-users db users (err e) = inr refl

  insert_referent_lem :
      (dto : CreateReferentRequest) (db : Db)
      → insert_referent c text crypto ids dto db
        ≡ inserted dto db (
            created
              (c.insert_fails User (new_account dto) db.users)
              (db.users ++ new_account dto ∷ []))
  unfolding insert_referent
  insert_referent_lem dto db = ap (inserted dto db) (law.create_lem User (new_account dto) db.users)

  created-users :
      (dto : CreateReferentRequest) (db : Db) (refused : Option PrismaCode)
      → ((db_after (inserted dto db (created refused (db.users ++ new_account dto ∷ []))) db).users
          ≡ db.users ++ new_account dto ∷ [])
        ⊎ ((db_after
              (inserted dto db (created refused (db.users ++ new_account dto ∷ [])))
              db).users
            ≡ db.users)
  created-users dto db none = inserted-users db (db.users ++ new_account dto ∷ []) _
  created-users dto db (some code) = inr refl

  insert_referent-users :
      (dto : CreateReferentRequest) (db : Db)
      → ((db_after (insert_referent c text crypto ids dto db) db).users
          ≡ db.users ++ new_account dto ∷ [])
        ⊎ ((db_after (insert_referent c text crypto ids dto db) db).users ≡ db.users)
  insert_referent-users dto db =
      rw (insert_referent_lem dto db)
        (created-users dto db (c.insert_fails User (new_account dto) db.users))

  missing-account :
      (dto : CreateReferentRequest) (w : World)
      → find? (λ u. text.same_email u.email dto.email) w.db.users ≡ none
      → AccountsKept dto w.db.users (create_for c text crypto ids dto none w).1.db.users
  unfolding create_for insert_referent try_write ◌>>=◌
  missing-account dto w missing =
      let answer : M ReferentListItem =
        pure
          (record { id = ids.profile; first_name = dto.first_name; last_name = dto.last_name }) in
      let wrote =
        write_then-ReadOnly answer (insert_referent c text crypto ids dto w.db) w
          (search (read_only_rules) depth 12) in
      let users = ap (λ (db : Db). db.users) wrote in
      elim (insert_referent-users dto w.db) [
        | inl e ↦ inr (missing, (new_account dto, (users ∙ e, (refl, refl))))
        | inr e ↦ inl (ap (map account) (users ∙ e))
      ]

  kept-for :
      (dto : CreateReferentRequest) (found : Option User) (w : World)
      → find? (λ u. text.same_email u.email dto.email) w.db.users ≡ found
      → AccountsKept dto w.db.users (create_for c text crypto ids dto found w).1.db.users
  kept-for dto none w e = missing-account dto w e
  kept-for dto (some existing) w e = inl (existing-account dto existing w)

  -- The creation of a referent, whether it succeeds or fails, changes no id, email, name or password of
  -- an account and removes none; it adds one at most, of the email of the request and the role of
  -- referent alone, and only where no account had that email, whatever the case of its letters.
  pub create-account :
      (dto : CreateReferentRequest) (w : World)
      → AccountsKept dto w.db.users (create c text crypto ids dto w).1.db.users
  unfolding create ◌>>=◌
  create-account dto w =
      rw (law.find_first_lem User (λ u. text.same_email u.email dto.email) w.db.users)
        (kept-for dto (find? (λ u. text.same_email u.email dto.email) w.db.users) w refl)
