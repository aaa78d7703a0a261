-- ===== src/Api/Stages/Resolve.antt =====
-- The organism and the tutor of a draft: `resolveOrganism`, `resolveTutor` and, for an edit in
-- place, `resolveOrganismForUpdate` and `resolveTutorForUpdate`.
use campus_internship.Prelude.{ℕ, ◌==◌, not, ◌&&◌, [], ◌∷◌}
use campus_internship.Api.Http.{Error, not_found, bad_request, internal, prisma, p2025, row_frozen}
use campus_internship.Api.Schema.{Uuid, OrganismInput, TutorInput, HostOrganism, Tutor, Stage}
use campus_internship.Api.World.{
  M, ◌>>=◌, ◌>>◌, pure, query, write, require, or_throw, try_write, map_result, catch_as,
  organism_creation_failed, tutor_creation_failed,
}
use campus_internship.Api.Prisma.{Client}
use campus_internship.Api.Stages.Responses.{stage_conflict}
use campus_internship.Api.Stages.Freeze.{refers_to, uses_organism, uses_tutor, is_frozen}

-- `existingOrNewSchema` and `existingNewOrEditSchema`
pub data Choice (D : Type 0) : Type 0 where
  existing : Uuid → Choice D
  new : D → Choice D

pub data UpdateChoice (D : Type 0) : Type 0 where
  choose : Choice D → UpdateChoice D
  edit : Uuid → D → UpdateChoice D

-- The ids that the database generates for the rows of one request.
pub record Ids : Type 0 where
  pub organism : Uuid
  pub tutor : Uuid
  pub stage : Uuid
  pub period : ℕ → Uuid

abbrev pub foreign_tutor : Error
foreign_tutor =
    bad_request ("Le tuteur professionnel sélectionné n'appartient pas à cet organisme" ∷ [])

abbrev pub organism_frozen : Error
organism_frozen =
    stage_conflict row_frozen
      "Cet organisme est utilisé par d'autres demandes: créez-en un nouveau plutôt que de le modifier."

abbrev pub tutor_frozen : Error
tutor_frozen =
    stage_conflict row_frozen
      "Ce tuteur professionnel est utilisé par d'autres demandes: créez-en un nouveau plutôt que de le modifier."

module _ (c : Client) (ids : Ids) where
  abbrev insert_organism : HostOrganism → M (Unit {0})
  insert_organism o = try_write (λ db.
      map_result (λ rows. record db { organisms = rows }) (c.create HostOrganism o db.organisms))

  abbrev insert_tutor : Tutor → M (Unit {0})
  insert_tutor t =
      try_write
        (λ db. map_result (λ rows. record db { tutors = rows }) (c.create Tutor t db.tutors))

  -- `resolveOrganism`
  unfoldable pub resolve_organism : Choice OrganismInput → M Uuid
  resolve_organism (existing id) = do
    found ← query (λ db. c.find_first HostOrganism (λ o. o.id == id) db.organisms)
    organism ← or_throw found (not_found "Organisme introuvable")
    pure organism.id
  resolve_organism (new input) =
      catch_as organism_creation_failed
        (internal "Impossible de créer l'organisme. Le brouillon n'a pas été enregistré.")
        (insert_organism (record { id = ids.organism; input = input }) >> pure ids.organism)

  -- `resolveTutor`
  unfoldable pub resolve_tutor : Choice TutorInput → Uuid → M Uuid
  resolve_tutor (existing id) organism_id = do
    found ←
        query
          (λ db. c.find_first Tutor (λ t. (t.id == id) && (t.organism_id == organism_id)) db.tutors)
    tutor ← or_throw found foreign_tutor
    pure tutor.id
  resolve_tutor (new input) organism_id =
      catch_as tutor_creation_failed
        (internal
          "Impossible de créer le tuteur professionnel. Le brouillon n'a pas été enregistré.")
        (insert_tutor (record { id = ids.tutor; input = input; organism_id = organism_id })
          >> pure ids.tutor)

  -- `update` of a row by its id, which throws if there is none
  abbrev update_organism : Uuid → OrganismInput → M (Unit {0})
  update_organism id input = do
    count ← write (λ db.
        let (n, rows) =
          c.update_many HostOrganism (λ o. o.id == id) (λ o. record o { input = input })
            db.organisms in
        (n, record db { organisms = rows }))
    require (not (count == 0)) (prisma p2025)

  abbrev update_tutor : Uuid → TutorInput → M (Unit {0})
  update_tutor id input = do
    count ← write (λ db.
        let (n, rows) =
          c.update_many Tutor (λ t. t.id == id) (λ t. record t { input = input }) db.tutors in
        (n, record db { tutors = rows }))
    require (not (count == 0)) (prisma p2025)

  -- `resolveOrganismForUpdate`
  unfoldable pub resolve_organism_for_update : Stage → UpdateChoice OrganismInput → M Uuid
  unfolding resolve_organism
  resolve_organism_for_update stage (choose organism) = resolve_organism organism
  resolve_organism_for_update stage (edit id input) = do
    require (refers_to stage.organism_id id)
        (bad_request ("Seul l'organisme de cette demande peut être modifié" ∷ []))
    frozen ← query (is_frozen c (uses_organism id) stage.student_id)
    require (not frozen) organism_frozen
    update_organism id input
    pure id

  -- `resolveTutorForUpdate`
  unfoldable pub resolve_tutor_for_update : Stage → UpdateChoice TutorInput → Uuid → M Uuid
  unfolding resolve_tutor
  resolve_tutor_for_update stage (choose tutor) organism_id = resolve_tutor tutor organism_id
  resolve_tutor_for_update stage (edit id input) organism_id = do
    require (refers_to stage.tutor_id id)
        (bad_request ("Seul le tuteur professionnel de cette demande peut être modifié" ∷ []))
    owned ←
        query
          (λ db. c.find_first Tutor (λ t. (t.id == id) && (t.organism_id == organism_id)) db.tutors)
    or_throw owned foreign_tutor
    frozen ← query (is_frozen c (uses_tutor id) stage.student_id)
    require (not frozen) tutor_frozen
    update_tutor id input
    pure id
