-- ===== src/Api/Referents.antt =====
-- modules/referents/referents.service.ts: the list of referents, their creation and assignment.
pub mod Assignment
pub mod Creation
pub mod Roles
pub mod Table
use campus_internship.Prelude.{
  ◌==◌, Bool, true, false, not, ◌&&◌, any, Option, none, some, List, [], ◌∷◌, ◌++◌, map,
  if◌then◌else◌, Text, text_eq,
}
use campus_internship.Shared.Enums.{Role, referent, role_eq, Semester, semester_eq, bool_eq}
use campus_internship.Shared.SchoolYear.{SchoolYear}
use campus_internship.Api.Http.{Error, Result, ok, err, conflict, js_error, prisma, p2025}
use campus_internship.Api.Schema.{Uuid, User, ReferentProfile, ReferentAssignment, Db}
use campus_internship.Api.World.{
  M, ◌>>=◌, ◌>>◌, pure, query, write, try_write, or_throw, require, lift, map_result,
}
use campus_internship.Api.Prisma.{Client}
use campus_internship.Api.Sessions.{Crypto}

-- `AssignReferentRequest`
pub record AssignReferentRequest : Type 0 where
  pub student_id : Uuid
  pub school_year : SchoolYear
  pub semester : Semester
  pub mandatory : Bool
  pub referent_id : Uuid

-- `CreateReferentRequest`
pub record CreateReferentRequest : Type 0 where
  pub first_name : Text
  pub last_name : Text
  pub email : Text

-- `ReferentListItem`
pub record ReferentListItem : Type 0 where
  pub id : Uuid
  pub first_name : Text
  pub last_name : Text

-- what the platform and the database compare texts by, and the ids of new rows
pub record Collation : Type 0 where
  -- `mode: "insensitive"`
  pub same_email : Text → Text → Bool
  -- `sensitivity: "base"`
  pub locale_equal : Text → Text → Bool
  -- `lastName: "asc"`
  pub name_order : Text → Text → Bool

pub record NewIds : Type 0 where
  pub user : Uuid
  pub profile : Uuid

-- the key of an assignment
pub record Tuple : Type 0 where
  pub student_id : Uuid
  pub school_year : SchoolYear
  pub semester : Semester
  pub mandatory : Bool

abbrev pub tuple_eq : Tuple → Tuple → Bool
tuple_eq j k =
    (j.student_id == k.student_id)
    && text_eq j.school_year k.school_year
    && semester_eq j.semester k.semester
    && bool_eq j.mandatory k.mandatory

abbrev pub tuple_of : ReferentAssignment → Tuple
tuple_of a = record {
  student_id = a.student_id;
  school_year = a.school_year;
  semester = a.semester;
  mandatory = a.mandatory;
}

-- `studentId_schoolYear_semester_mandatory`
abbrev pub requested_tuple : AssignReferentRequest → Tuple
requested_tuple dto = record {
  student_id = dto.student_id;
  school_year = dto.school_year;
  semester = dto.semester;
  mandatory = dto.mandatory;
}

-- `create` of the upsert
abbrev pub new_assignment : AssignReferentRequest → ReferentAssignment
new_assignment dto = record {
  school_year = dto.school_year;
  semester = dto.semester;
  mandatory = dto.mandatory;
  referent_id = dto.referent_id;
  student_id = dto.student_id;
}

-- a required relation that the database does not hold
abbrev dangling : Error
dangling = js_error "Inconsistent query result"

abbrev pub list_item : ReferentProfile → User → ReferentListItem
list_item profile user = record {
  id = profile.id;
  first_name = user.first_name;
  last_name = user.last_name;
}

-- `existing.roles.includes("REFERENT") ? {} : { roles: { push: "REFERENT" } }`
abbrev pub with_referent_role : User → User
with_referent_role user =
    if any (role_eq referent) user.roles
    then user
    else record user { roles = user.roles ++ referent ∷ [] }

module _ (c : Client) where
  -- `include: { referent: { include: { user } } }`
  unfoldable pub referent_item : Uuid → M ReferentListItem
  referent_item id = do
    found ← query (λ db. c.find_first ReferentProfile (λ r. r.id == id) db.referents)
    profile ← or_throw found dangling
    user? ← query (λ db. c.find_first User (λ u. u.id == profile.user_id) db.users)
    user ← or_throw user? dangling
    pure (list_item profile user)

  -- `assign`
  unfoldable pub assign : AssignReferentRequest → M ReferentListItem
  assign dto = do
    try_write (λ db.
        map_result (λ rows. record db { assignments = rows })
          (c.upsert ReferentAssignment (λ a. tuple_eq (tuple_of a) (requested_tuple dto))
            (λ a. record a { referent_id = dto.referent_id }) (new_assignment dto) db.assignments))
    found ← query (λ db.
        c.find_first ReferentAssignment (λ a. tuple_eq (tuple_of a) (requested_tuple dto))
          db.assignments)
    assignment ← or_throw found dangling
    referent_item assignment.referent_id

  -- `{ include: { user } }`
  unfoldable pub include_user : List ReferentProfile → M (List (ReferentProfile × User))
  include_user [] = pure []
  include_user (r ∷ rs) = do
    user? ← query (λ db. c.find_first User (λ u. u.id == r.user_id) db.users)
    user ← or_throw user? dangling
    rest ← include_user rs
    pure ((r, user) ∷ rest)

  module _ (text : Collation) where
    -- `list`
    unfoldable pub list : M (List ReferentListItem)
    list = do
      profiles ← query (λ db. c.find_many ReferentProfile (λ r. not r.archived) db.referents)
      referents ← include_user profiles
      pure (
          map (λ (r : ReferentProfile × User). list_item r.0 r.1)
            (c.order_by (ReferentProfile × User)
              (λ r s. text.name_order r.1.last_name s.1.last_name) referents))

    -- `sameName`, of both names
    abbrev pub same_person : CreateReferentRequest → User → Bool
    same_person dto user =
        text.locale_equal user.first_name dto.first_name
        && text.locale_equal user.last_name dto.last_name

    module _ (crypto : Crypto) (ids : NewIds) where
      -- the nested write of `prisma.user.create`
      unfoldable pub insert_referent : CreateReferentRequest → Db → Result Db
      insert_referent dto db =
          elim (c.create User
            (record {
              id = ids.user;
              email = dto.email;
              password_hash = crypto.hash_password crypto.random_token;
              first_name = dto.first_name;
              last_name = dto.last_name;
              roles = referent ∷ [];
            })
            db.users) [
              | ok users ↦
                  map_result (λ referents. record db { users = users; referents = referents })
                    (c.create ReferentProfile
                      (record { id = ids.profile; user_id = ids.user; archived = false })
                      db.referents)
              | err e ↦ err e
            ]

      -- the nested write of `prisma.user.update`
      unfoldable pub add_referent : User → Db → Result Db
      add_referent existing db =
          let (n, users) =
            c.update_many User (λ u. u.id == existing.id) with_referent_role db.users in
          if n == 0
          then err (prisma p2025)
          else map_result (λ referents. record db { users = users; referents = referents })
              (c.upsert ReferentProfile (λ r. r.user_id == existing.id) (λ r. r)
                (record { id = ids.profile; user_id = existing.id; archived = false }) db.referents)

      -- the two branches of `create`
      unfoldable pub create_for : CreateReferentRequest → Option User → M ReferentListItem
      create_for dto none = do
        try_write (insert_referent dto)
        pure (record { id = ids.profile; first_name = dto.first_name; last_name = dto.last_name })
      create_for dto (some existing) = do
        require (same_person dto existing)
            (conflict none "This email already belongs to a user with a different name")
        try_write (add_referent existing)
        found ←
            query (λ db. c.find_first ReferentProfile (λ r. r.user_id == existing.id) db.referents)
        profile ← or_throw found (js_error "referentProfile is null")
        pure (list_item profile existing)

      -- `create`
      unfoldable pub create : CreateReferentRequest → M ReferentListItem
      create dto = do
        existing ← query (λ db. c.find_first User (λ u. text.same_email u.email dto.email) db.users)
        create_for dto existing
