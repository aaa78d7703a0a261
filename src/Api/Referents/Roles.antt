-- ===== src/Api/Referents/Roles.antt =====
-- What the creation of a referent returns: a profile of a user who has the role.
use campus_internship.Prelude.{
  ℕ, ◌≡◌, ◌==◌, refl, sym, ap, ◌∙◌, Bool, true, false, ◌&&◌, any, Option, none, some, List, [], ◌∷◌,
  ◌++◌, select, length, arith, if◌then◌else◌, Bool-cases, inl, inr,
}
use campus_internship.Shared.Enums.{referent, role_eq}
use campus_internship.Api.Http.{Result, ok, err, js_error, prisma, p2025}
use campus_internship.Api.Schema.{Uuid, User, ReferentProfile, Db}
use campus_internship.Api.World.{World, ◌>>=◌, pure, map_result, or_throw}
use campus_internship.Api.World.ReadOnly.{ReadOnly-pure, write_then-ReadOnly, write_then-ok}
use campus_internship.Api.Prisma.{Client, IsClient, find?, update_where}
use campus_internship.Api.Prisma.Tables.{find?_test, created-ok}
use campus_internship.Api.Sessions.{Crypto}
use campus_internship.Api.Referents.{
  CreateReferentRequest, ReferentListItem, Collation, NewIds, same_person, with_referent_role,
  insert_referent, add_referent, create_for, create, list_item,
}
use campus_internship.Api.Referents.Creation.{profile_answer, profile_answer-ReadOnly}

abbrev is_referent : User → Bool
is_referent u = any (role_eq referent) u.roles

-- the profile exists, and its user has the role
abbrev pub has_role : Db → ReferentProfile → Bool
has_role db r = any (λ (u : User). (u.id == r.user_id) && is_referent u) db.users

abbrev pub is_referent_profile : Uuid → Db → Bool
is_referent_profile id db =
    any (λ (r : ReferentProfile). (r.id == id) && has_role db r) db.referents

any-last :
    {A : Type 0} (p : A → Bool) (xs : List A) (x : A) → p x ≡ true → any p (xs ++ x ∷ []) ≡ true
any-last p [] x e = ground arith
any-last p (y ∷ ys) x e = ground (arith, any-last p ys x e)

any-find? :
    {A : Type 0} (p q : A → Bool) (xs : List A) (x : A)
    → find? p xs ≡ some x
    → q x ≡ true
    → any q xs ≡ true
unfolding find?
any-find? p q [] x e h = cc
any-find? p q (y ∷ ys) x e h = ground (arith, any-find? p q ys x)

role-referent : (u : User) → is_referent (with_referent_role u) ≡ true
role-referent u = elim (Bool-cases (is_referent u)) [
  | inl t ↦ rw (t, t)
  | inr f ↦ rw f (any-last (role_eq referent) u.roles referent refl)
]

role-id : (u : User) → (with_referent_role u).id ≡ u.id
role-id u = elim (Bool-cases (is_referent u)) [ inl t ↦ rw t | inr f ↦ rw f ]

-- an update that selects a row gives its user the role
any-updated :
    (id : Uuid) (users : List User)
    → (length (select (λ u. u.id == id) users) == 0) ≡ false
    → any
        (λ (u : User). (u.id == id) && is_referent u)
        (update_where (λ u. u.id == id) with_referent_role users)
      ≡ true
unfolding update_where
any-updated id [] e = ground arith
any-updated id (u ∷ users) e = elim (Bool-cases (u.id == id)) [
  | inl t ↦ rw (t, role-id u, t, role-referent u)
  | inr f ↦ rw (f, f) (any-updated id users (ground arith))
]

module _ (c : Client) (law : IsClient c) (text : Collation) (crypto : Crypto) (ids : NewIds) where
  finish_ok :
      (n : ℕ) (users : List User) (r : Result (List ReferentProfile)) (db after : Db)
      → (if n == 0
          then err (prisma p2025)
          else map_result (λ referents. record db { users = users; referents = referents }) r)
        ≡ ok after
      → ((n == 0) ≡ false) × (after.users ≡ users)
  finish_ok n users (ok rows) db after e = ground arith
  finish_ok n users (err x) db after e = ground arith

  add_referent-role :
      (existing : User) (db after : Db)
      → add_referent c text crypto ids existing db ≡ ok after
      → any (λ (u : User). (u.id == existing.id) && is_referent u) after.users ≡ true
  unfolding add_referent
  add_referent-role existing db after e =
      let (some_row, users) = finish_ok _ _ _ db after e in
      let lem = law.update_many_lem User (λ u. u.id == existing.id) with_referent_role db.users in
      let rows = any-updated existing.id db.users (sym (ap (λ r. r.0 == 0) lem) ∙ some_row) in
      rw (users ∙ ap (λ r. r.1) lem) rows

  -- the profile that is read after the update
  found_answer :
      (existing : User) (found : Option ReferentProfile) (w : World) (item : ReferentListItem)
      → find? (λ r. r.user_id == existing.id) w.db.referents ≡ found
      → any (λ (u : User). (u.id == existing.id) && is_referent u) w.db.users ≡ true
      → ((or_throw found (js_error "referentProfile is null") >>= λ profile.
            pure (list_item profile existing))
          w).0
        ≡ ok item
      → is_referent_profile item.id w.db ≡ true
  unfolding ◌>>=◌
  found_answer existing none w item e h done = cc
  found_answer existing (some r) w item e h done =
      let same : r.id ≡ item.id = cc in
      let owner : r.user_id ≡ existing.id =
        ground (arith, find?_test (λ r. r.user_id == existing.id) w.db.referents r e) in
      let role : has_role w.db r ≡ true = rw owner h in
      any-find? (λ r. r.user_id == existing.id) (λ r. (r.id == item.id) && has_role w.db r)
        w.db.referents r e (ground arith)

  existing_answer :
      (existing : User) (w : World) (item : ReferentListItem)
      → any (λ (u : User). (u.id == existing.id) && is_referent u) w.db.users ≡ true
      → (profile_answer c law text crypto ids existing w).0 ≡ ok item
      → is_referent_profile item.id w.db ≡ true
  unfolding ◌>>=◌
  existing_answer existing w item h done =
      found_answer existing
        (c.find_first ReferentProfile (λ r. r.user_id == existing.id) w.db.referents) w item
        (sym (law.find_first_lem ReferentProfile _ w.db.referents)) h done

  inserted-ok :
      (users : Result (List User)) (referents : Result (List ReferentProfile)) (db after : Db)
      → (elim users [
        | ok users ↦
            map_result (λ referents. record db { users = users; referents = referents }) referents
        | err e ↦ err e
      ])
        ≡ ok after
      → (users ≡ ok after.users) × (referents ≡ ok after.referents)
  inserted-ok (ok users) (ok referents) db after e = ground arith
  inserted-ok (ok users) (err x) db after e = cc
  inserted-ok (err x) referents db after e = cc

  insert_referent-role :
      (dto : CreateReferentRequest) (db after : Db)
      → insert_referent c text crypto ids dto db ≡ ok after
      → is_referent_profile ids.profile after ≡ true
  unfolding insert_referent
  insert_referent-role dto db after e =
      let (users, referents) = inserted-ok _ _ db after e in
      let all_users = created-ok _ _ _ (sym (law.create_lem User _ db.users) ∙ users) in
      let all_referents =
        created-ok _ _ _ (sym (law.create_lem ReferentProfile _ db.referents) ∙ referents) in
      let user : any (λ (u : User). (u.id == ids.user) && is_referent u) after.users ≡ true =
        rw (sym all_users) (any-last _ db.users _ (ground arith)) in
      rw (sym all_referents) (any-last _ db.referents _ (ground arith))

  create_for-role :
      (dto : CreateReferentRequest) (o : Option User) (w : World) (item : ReferentListItem)
      → (create_for c text crypto ids dto o w).0 ≡ ok item
      → is_referent_profile item.id (create_for c text crypto ids dto o w).1.db ≡ true
  unfolding create_for ◌>>=◌
  create_for-role dto none w item = λ done.
      let new : ReferentListItem = record {
        id = ids.profile;
        first_name = dto.first_name;
        last_name = dto.last_name;
      } in
      let (db, (e, answer)) =
        write_then-ok (pure new) (insert_referent c text crypto ids dto w.db) w item done in
      let same : ids.profile ≡ item.id = cc in
      rw
        (
          write_then-ReadOnly (pure new) (insert_referent c text crypto ids dto w.db) w
              (ReadOnly-pure new),
          e,
          sym same,
        )
        (insert_referent-role dto w.db db e)
  create_for-role dto (some existing) w item = elim (Bool-cases (same_person c text dto existing)) [
    | inl t ↦ rw t (λ done.
        let k = profile_answer c law text crypto ids existing in
        let (db, (e, answer)) =
          write_then-ok k (add_referent c text crypto ids existing w.db) w item done in
        rw
          (
            write_then-ReadOnly k (add_referent c text crypto ids existing w.db) w
                (profile_answer-ReadOnly c law text crypto ids existing),
            e,
          )
          (existing_answer existing (record w { db = db }) item
            (add_referent-role existing w.db db e) answer))
    | inr f ↦ rw f (λ done. cc)
  ]

  -- A referent that is created, and that the answer names, is a profile whose user has the role of
  -- referent, whether the user is new or had an account before.
  pub create-is_referent_profile :
      (dto : CreateReferentRequest) (w : World) (item : ReferentListItem)
      → (create c text crypto ids dto w).0 ≡ ok item
      → is_referent_profile item.id (create c text crypto ids dto w).1.db ≡ true
  unfolding create ◌>>=◌
  create-is_referent_profile dto w item =
      create_for-role dto (c.find_first User (λ u. text.same_email u.email dto.email) w.db.users) w
        item
