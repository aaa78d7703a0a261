-- ===== src/Web/Wizard/Gate.antt =====
-- What the last step of the wizard saves, and the gate of its button "Soumettre".
use campus_internship.Prelude.{
  ◌≡◌, refl, sym, ap, ◌∙◌, Bool, true, false, not, ◌&&◌, Option, none, some, List, [], ◌∷◌, arith,
  String, Bool-cases, inl, inr, Text, trim,
}
use campus_internship.Prelude.Trim.{no_units, has_ink, has_ink-trim, no_units-trim}
use campus_internship.Shared.Enums.{ProfileStatus}
use campus_internship.Shared.Calendar.{Date}
use campus_internship.Shared.StagePeriod.{Period, Issue, stage_periods_issues}
use campus_internship.Shared.Submission.{Candidate, is_blank, get_submission_blockers, is_empty}
use campus_internship.Api.Schema.{OrganismInput, TutorInput}
use campus_internship.Api.Stages.Resolve.{UpdateChoice}
use campus_internship.Web.Wizard.{
  RawPeriod, Wizard, Values, is_some, trimmed_or_absent, validate_periods, step_valid, save, saved,
  gate_candidate, no_blockers, can_submit, no_issues, if_valid, coerce_periods,
}
use campus_internship.Web.Wizard.Steps.{Reachable, EarlierValid, Reachable-EarlierValid}

is_some-value : {A : Type 0} (o : Option A) → is_some o ≡ true → (a : A) × (o ≡ some a)
is_some-value none e = cc
is_some-value (some a) e = (a, refl)

no_issues→nil : (is : List Issue) → no_issues is ≡ true → is ≡ []
no_issues→nil [] e = refl
no_issues→nil (i ∷ is) e = cc

is_empty-no_units : (s : Text) → is_empty s ≡ no_units s
is_empty-no_units [] = refl
is_empty-no_units (c ∷ s) = refl

is_blank-ink : (s : Text) → is_blank (some s) ≡ not (has_ink s)
unfolding is_blank
is_blank-ink s = is_empty-no_units (trim s) ∙ no_units-trim s

absent : is_blank none ≡ true
unfolding is_blank
absent = refl

-- a text is blank exactly where the text that is saved for it is
is_blank-saved : (s : Text) → is_blank (trimmed_or_absent s) ≡ is_blank (some s)
is_blank-saved s = elim (Bool-cases (has_ink s)) [
  | inl t ↦
      let kept : no_units (trim s) ≡ false = no_units-trim s ∙ ap not t in
      rw kept (is_blank-ink (trim s) ∙ ap not (has_ink-trim s) ∙ sym (is_blank-ink s))
  | inr f ↦
      let gone : no_units (trim s) ≡ true = no_units-trim s ∙ ap not f in
      rw gone (absent ∙ sym (is_blank-ink s ∙ ap not f))
]

-- the draft that the API holds once the values are saved
abbrev pub saved_candidate : Values → ProfileStatus → Candidate
saved_candidate v status = record {
  profile_status = status;
  has_organism = true;
  has_tutor = true;
  service = v.service;
  project_type = v.project_type;
  motivation = v.motivation;
  periods = v.periods;
}

module _ (parse : Text → Option Date) where
  if_valid-issues :
      (o : Option (List Period)) (ps : List Period)
      → if_valid parse o ≡ some ps
      → stage_periods_issues ps ≡ []
  if_valid-issues none ps e = cc
  if_valid-issues (some qs) ps e = elim (Bool-cases (no_issues (stage_periods_issues qs))) [
    | inl t ↦
        let same : qs ≡ ps = ground arith in
        rw (sym same) (no_issues→nil (stage_periods_issues qs) t)
    | inr f ↦ ground arith
  ]

  -- what is saved, from the fields of the wizard
  abbrev values_of :
      Wizard → List Period → UpdateChoice OrganismInput → UpdateChoice TutorInput → Bool → Values
  values_of s periods organism tutor mandatory = record {
    organism = organism;
    tutor = tutor;
    periods = periods;
    mandatory = mandatory;
    service = trimmed_or_absent s.service;
    project_type = trimmed_or_absent s.project_type;
    motivation = trimmed_or_absent s.motivation;
  }

  validate_periods-issues :
      (raw : List RawPeriod) (ps : List Period)
      → validate_periods parse raw ≡ some ps
      → stage_periods_issues ps ≡ []
  unfolding validate_periods
  validate_periods-issues raw ps e = if_valid-issues (coerce_periods parse raw) ps e

  -- On the last step, both buttons save: no test of the handler sends the student away without a word,
  -- and the periods that are saved pass the schema of the API.
  pub save-Reachable :
      (s : Wizard)
      → Reachable parse s
      → s.step ≡ 3
      → (v : Values) × ((save parse s ≡ some v) × (stage_periods_issues v.periods ≡ []))
  unfolding save step_valid
  save-Reachable s reached at =
      let h : EarlierValid parse s = Reachable-EarlierValid parse s reached in
      let both : (is_some s.organism && is_some s.tutor) ≡ true = h.1 0 (omega (arith, at)) in
      let (o, eo) = is_some-value s.organism (ground arith) in
      let (t, et) = is_some-value s.tutor (ground arith) in
      let (ps, ep) = is_some-value (validate_periods parse s.periods) (h.1 1 (omega (arith, at))) in
      let (m, em) = is_some-value s.mandatory (h.1 2 (omega (arith, at))) in
      (values_of s ps o t m, (rw (ep, eo, et, em) refl, validate_periods-issues s.periods ps ep))

  blockers_cong :
      (a b : Candidate) (today : Date)
      → a.profile_status ≡ b.profile_status
      → a.has_organism ≡ b.has_organism
      → a.has_tutor ≡ b.has_tutor
      → is_blank a.service ≡ is_blank b.service
      → is_blank a.project_type ≡ is_blank b.project_type
      → is_blank a.motivation ≡ is_blank b.motivation
      → a.periods ≡ b.periods
      → get_submission_blockers a today ≡ get_submission_blockers b today
  unfolding get_submission_blockers
  blockers_cong a b today p o t s y m q = rw (p, o, t, s, y, m, q)

  no_blockers-is_empty : (bs : List String) → no_blockers parse bs ≡ is_empty bs
  no_blockers-is_empty [] = refl
  no_blockers-is_empty (b ∷ bs) = refl

  -- the wizard that saves something has every choice made
  saved_values :
      (s : Wizard) (v : Values) (ps : Option (List Period))
      (o : Option (UpdateChoice OrganismInput)) (t : Option (UpdateChoice TutorInput))
      (m : Option Bool)
      → saved parse s ps o t m ≡ some v
      → (ps ≡ some v.periods)
        × ((is_some o ≡ true)
            × ((is_some t ≡ true)
                × ((v.service ≡ trimmed_or_absent s.service)
                    × ((v.project_type ≡ trimmed_or_absent s.project_type)
                        × (v.motivation ≡ trimmed_or_absent s.motivation)))))
  saved_values s v (some ps) (some o) (some t) (some m) e =
      let same : values_of s ps o t m ≡ v = cc in
      rw (sym same) (refl, (refl, (refl, (refl, (refl, refl)))))
  saved_values s v none o t m e = cc
  saved_values s v (some ps) none t m e = cc
  saved_values s v (some ps) (some o) none m e = cc
  saved_values s v (some ps) (some o) (some t) none e = cc

  -- The button "Soumettre" of the wizard, which judges the texts as typed, is enabled exactly where the
  -- API finds no blocker in the draft that is saved, for a profile of the same status.
  pub can_submit-saved :
      (s : Wizard) (v : Values) (status : ProfileStatus) (today : Date)
      → save parse s ≡ some v
      → can_submit parse s (some status) today
        ≡ is_empty (get_submission_blockers (saved_candidate v status) today)
  unfolding save can_submit
  can_submit-saved s v status today e =
      let (ps, (o, (t, (service, (project_type, motivation))))) =
        saved_values s v (validate_periods parse s.periods) s.organism s.tutor s.mandatory e in
      no_blockers-is_empty (get_submission_blockers (gate_candidate parse s status) today)
      ∙ ap is_empty (
          blockers_cong (gate_candidate parse s status) (saved_candidate v status) today refl o t
            (rw service (sym (is_blank-saved s.service)))
            (rw project_type (sym (is_blank-saved s.project_type)))
            (rw motivation (sym (is_blank-saved s.motivation))) (rw ps refl))
