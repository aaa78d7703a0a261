-- ===== src/Web/Wizard/Steps.antt =====
-- The steps of the wizard: which states the student can reach, and that the last one can be saved.
use campus_internship.Prelude.{
  ℕ, zero, suc, ◌+◌, ◌-◌, ◌≤◌, ◌<◌, ◌==◌, ◌≡◌, refl, ap, ◌∙◌, Bool, true, Option, none, some, List,
  arith, Bool-cases, inl, inr, Text,
}
use campus_internship.Shared.Calendar.{Date}
use campus_internship.Api.Schema.{OrganismInput, TutorInput}
use campus_internship.Api.Stages.Resolve.{UpdateChoice}
use campus_internship.Web.Wizard.{
  RawPeriod, CreationMode, Wizard, set_organism_tutor, step_valid, handle_next, handle_back,
}

-- An event of the interface: each form is there on its own step alone, and "Suivant" only before the
-- last step, where it is enabled on a valid step.
pub data Event (parse : Text → Option Date) : Wizard → Wizard → Type 0 where
  next :
      {s : Wizard}
      → s.step < 3
      → step_valid parse s.step s ≡ true
      → Event parse s (handle_next parse s)
  back : {s : Wizard} → Event parse s (handle_back parse s)
  open_form :
      {s : Wizard} (mode : Option CreationMode)
      → s.step ≡ 0
      → Event parse s (record s { creating = mode })
  choose_organism_tutor :
      {s : Wizard} (o : Option (UpdateChoice OrganismInput)) (t : Option (UpdateChoice TutorInput))
      → s.step ≡ 0
      → Event parse s (set_organism_tutor o t s)
  change_periods :
      {s : Wizard} (ps : List RawPeriod) → s.step ≡ 1 → Event parse s (record s { periods = ps })
  change_service :
      {s : Wizard} (value : Text) → s.step ≡ 2 → Event parse s (record s { service = value })
  change_project_type :
      {s : Wizard} (value : Text) → s.step ≡ 2 → Event parse s (record s { project_type = value })
  change_motivation :
      {s : Wizard} (value : Text) → s.step ≡ 2 → Event parse s (record s { motivation = value })
  change_mandatory :
      {s : Wizard} (value : Bool) → s.step ≡ 2 → Event parse s (record s { mandatory = some value })

-- the states that a wizard opened at its first step comes to
pub data Reachable (parse : Text → Option Date) : Wizard → Type 0 where
  opened : {s : Wizard} → s.step ≡ 0 → Reachable parse s
  after : {s t : Wizard} → Reachable parse s → Event parse s t → Reachable parse t

module _ (parse : Text → Option Date) where
  -- the steps before the current one are valid, and there are four
  abbrev pub EarlierValid : Wizard → Type 0
  EarlierValid s = (s.step ≤ 3) × ((k : ℕ) → k < s.step → step_valid parse k s ≡ true)

  -- the tests do not read the step
  step_valid-step :
      (k n : ℕ) (s : Wizard) → step_valid parse k (record s { step = n }) ≡ step_valid parse k s
  unfolding step_valid
  step_valid-step zero n s = refl
  step_valid-step (suc zero) n s = refl
  step_valid-step (suc (suc zero)) n s = refl
  step_valid-step (suc (suc (suc k))) n s = refl

  at_first : (t : Wizard) → t.step ≡ 0 → EarlierValid t
  at_first t at = (omega (arith, at), λ k below. ground arith)

  at_second : (t : Wizard) → t.step ≡ 1 → step_valid parse 0 t ≡ true → EarlierValid t
  at_second t at h = (
    omega (arith, at),
    λ k below. let z : k ≡ 0 = omega (arith, at, below) in ap (λ j. step_valid parse j t) z ∙ h,
  )

  at_third :
      (t : Wizard)
      → t.step ≡ 2
      → step_valid parse 0 t ≡ true
      → step_valid parse 1 t ≡ true
      → EarlierValid t
  at_third t at h k = (
    omega (arith, at),
    λ j below. elim (Bool-cases (j == 0)) [
      | inl e ↦ let z : j ≡ 0 = ground arith in ap (λ i. step_valid parse i t) z ∙ h
      | inr f ↦ let z : j ≡ 1 = ground arith in ap (λ i. step_valid parse i t) z ∙ k
    ],
  )

  next-EarlierValid :
      (s : Wizard)
      → s.step < 3
      → step_valid parse s.step s ≡ true
      → EarlierValid s
      → EarlierValid (handle_next parse s)
  unfolding handle_next
  next-EarlierValid s below ok h = (
    omega (arith, below),
    λ k lt. step_valid-step k (s.step + 1) s ∙ elim (Bool-cases (k == s.step)) [
      | inl t ↦ let z : k ≡ s.step = ground arith in ap (λ j. step_valid parse j s) z ∙ ok
      | inr f ↦ h.1 k (ground arith)
    ],
  )

  back-EarlierValid : (s : Wizard) → EarlierValid s → EarlierValid (handle_back parse s)
  unfolding handle_back
  back-EarlierValid s h = elim (Bool-cases (s.step == 0)) [
    | inl t ↦ rw t (at_first (record s { creating = none }) (ground arith))
    | inr f ↦ rw f (ground arith, λ k lt. step_valid-step k (s.step - 1) s ∙ h.1 k (ground arith))
  ]

  event-EarlierValid : {s t : Wizard} → Event parse s t → EarlierValid s → EarlierValid t
  unfolding step_valid
  event-EarlierValid {s} (next below ok) h = next-EarlierValid s below ok h
  event-EarlierValid {s} back h = back-EarlierValid s h
  event-EarlierValid (open_form mode at) h = at_first _ at
  event-EarlierValid (choose_organism_tutor o t at) h = at_first _ at
  event-EarlierValid (change_periods ps at) h = at_second _ at (h.1 0 (omega (arith, at)))
  event-EarlierValid (change_service value at) h =
      at_third _ at (h.1 0 (omega (arith, at))) (h.1 1 (omega (arith, at)))
  event-EarlierValid (change_project_type value at) h =
      at_third _ at (h.1 0 (omega (arith, at))) (h.1 1 (omega (arith, at)))
  event-EarlierValid (change_motivation value at) h =
      at_third _ at (h.1 0 (omega (arith, at))) (h.1 1 (omega (arith, at)))
  event-EarlierValid (change_mandatory value at) h =
      at_third _ at (h.1 0 (omega (arith, at))) (h.1 1 (omega (arith, at)))

  -- Whatever the student does, the wizard is on one of its four steps, and every step before the
  -- current one is valid: an organism and a tutor are chosen, the periods pass the schema of the
  -- API, and the choice between mandatory and optional is made.
  pub Reachable-EarlierValid : (s : Wizard) → Reachable parse s → EarlierValid s
  Reachable-EarlierValid s (opened at) = at_first s at
  Reachable-EarlierValid t (after {s} before e) =
      event-EarlierValid e (Reachable-EarlierValid s before)
