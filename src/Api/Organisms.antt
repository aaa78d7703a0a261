-- ===== src/Api/Organisms.antt =====
-- modules/organisms/organisms.service.ts: the search of organisms and the detail of one. `unaccent`
-- and `ILIKE` are PostgreSQL's.
pub mod Pattern
pub mod Search
use campus_internship.Prelude.{
  ℕ, zero, suc, ◌==◌, Bool, ◌||◌, List, [], ◌∷◌, ◌++◌, map, Text, trim, if◌then◌else◌,
}
use campus_internship.Prelude.Trim.{no_units}
use campus_internship.Api.Http.{not_found}
use campus_internship.Api.Schema.{Uuid, OrganismInput, TutorInput, HostOrganism, Tutor, Db}
use campus_internship.Api.World.{M, ◌>>=◌, ◌>>◌, pure, query, or_throw}
use campus_internship.Api.Prisma.{Client}

-- `OrganismSearchResultItem`
pub record OrganismItem : Type 0 where
  pub id : Uuid
  pub name : Text
  pub structure_type : Text
  pub city : Text

-- `OrganismTutorSummary`
pub record TutorSummary : Type 0 where
  pub id : Uuid
  pub input : TutorInput

-- `OrganismDetailResponse`
pub record OrganismDetail : Type 0 where
  pub id : Uuid
  pub input : OrganismInput
  pub tutors : List TutorSummary

-- backslash, percent sign and low line
abbrev pub is_meta : ℕ → Bool
is_meta u = (u == 92) || (u == 37) || (u == 95)

-- `escapeLikePattern`
unfoldable pub escape_like_pattern : Text → Text
escape_like_pattern [] = []
escape_like_pattern (u ∷ s) =
    let rest = escape_like_pattern s in if is_meta u then 92 ∷ u ∷ rest else u ∷ rest

-- the pattern of a search, between two percent signs
abbrev pub search_pattern : Text → Text
search_pattern trimmed = 37 ∷ escape_like_pattern trimmed ++ 37 ∷ []

abbrev pub search_item : HostOrganism → OrganismItem
search_item o = record {
  id = o.id;
  name = o.name;
  structure_type = o.structure_type;
  city = o.city;
}

-- the rows of a `LIMIT`
abbrev pub limit {ℓ} : {A : Type ℓ} → ℕ → List A → List A
limit zero rows = []
limit (suc n) [] = []
limit (suc n) (r ∷ rows) = r ∷ limit n rows

module _ (c : Client) (unaccent : Text → Text) (ilike : Text → Text → Bool)
    (not_after : Text → Text → Bool) where
  -- the rows of the raw query, in the collation of the database
  abbrev pub search_rows : Text → Db → List OrganismItem
  search_rows pattern db = map search_item (
      limit 20 (
        c.order_by HostOrganism (λ o p. not_after o.name p.name)
          (c.find_many HostOrganism (λ o. ilike (unaccent o.name) (unaccent pattern))
            db.organisms)))

  -- `search`
  unfoldable pub search_organisms : Text → M (List OrganismItem)
  search_organisms typed =
      if no_units (trim typed) then pure [] else query (search_rows (search_pattern (trim typed)))

module _ (c : Client) where
  abbrev pub tutor_summary : Tutor → TutorSummary
  tutor_summary t = record { id = t.id; input = t.input }

  -- `findById`
  unfoldable pub find_organism : Uuid → M OrganismDetail
  find_organism id = do
    found ← query (λ db. c.find_first HostOrganism (λ o. o.id == id) db.organisms)
    organism ← or_throw found (not_found "Organisme introuvable")
    tutors ← query (λ db. c.find_many Tutor (λ t. t.organism_id == id) db.tutors)
    pure (record { id = organism.id; input = organism.input; tutors = map tutor_summary tutors })
