-- ===== src/Api/Snapshot/RoundTrip.antt =====
-- What a decision writes reads back.
use campus_internship.Prelude.{
  ℕ, ◌≡◌, refl, Bool, true, Option, none, some, List, [], ◌∷◌, arith, All, Text, text_eq,
}
use campus_internship.Shared.Enums.{Semester, s1, s2, Promotion, l2, l3}
use campus_internship.Shared.SchoolYear.{school_year_schema}
use campus_internship.Shared.SchoolYear.Format.{school_year_schema_again}
use campus_internship.Api.Json.{
  Json, obj, as_str, as_bool, as_obj, as_arr, Items, nil, cons, Members, as_nullable_str,
  nullable_str, get, ◌>>=◌, Ensures, Ensures-bind, Ensures-some,
}
use campus_internship.Api.Snapshot.{
  Snapshot, FrozenPeriod, parse_semester, parse_promotion, semester_text, promotion_text,
  parse_organism, parse_tutor, parse_referent, parse_decided_by, parse_period, parse_periods,
  parse_v1, parse_stage_snapshot, period_json, periods_json, snapshot_json, check_datetime,
}

parse_semester-text : (s : Semester) → parse_semester (semester_text s) ≡ some s
unfolding parse_semester text_eq
parse_semester-text s1 = refl
parse_semester-text s2 = refl

parse_promotion-text : (p : Promotion) → parse_promotion (promotion_text p) ≡ some p
unfolding parse_promotion text_eq
parse_promotion-text l2 = refl
parse_promotion-text l3 = refl

nullable_back : (o : Option Text) → as_nullable_str (nullable_str o) ≡ some o
nullable_back none = refl
nullable_back (some s) = refl

module _ (is_datetime : Text → Bool) where
  -- the texts that the schema checks
  pub record IsSound (s : Snapshot) : Type 0 where
    pub school_year : school_year_schema s.school_year ≡ some s.school_year
    pub dates :
        All
          (λ (p : FrozenPeriod).
            (is_datetime p.start_date ≡ true) × (is_datetime p.end_date ≡ true))
          s.periods
    pub decided_at : is_datetime s.decided_at ≡ true

  parse_periods-json :
      (ps : List FrozenPeriod)
      → All
          (λ (p : FrozenPeriod).
            (is_datetime p.start_date ≡ true) × (is_datetime p.end_date ≡ true))
          ps
      → parse_periods is_datetime (periods_json ps) ≡ some ps
  unfolding parse_periods periods_json parse_period period_json check_datetime get
  parse_periods-json [] h = refl
  parse_periods-json (p ∷ ps) h = rw (h.0.0, h.0.1, parse_periods-json ps h.1)

  -- A sound snapshot, written and parsed under version 1, is itself.
  pub parse_stage_snapshot-json :
      (s : Snapshot)
      → IsSound s
      → parse_stage_snapshot is_datetime (some (snapshot_json s)) (some 1) ≡ some s
  unfolding parse_stage_snapshot parse_v1 snapshot_json get parse_organism parse_tutor
      parse_referent parse_decided_by check_datetime
  parse_stage_snapshot-json s h = simp (
    h.school_year,
    parse_semester-text,
    nullable_back,
    parse_periods-json s.periods h.dates,
    parse_promotion-text,
    h.decided_at,
  )

  parse_periods-dates :
      (js : Items) (ps : List FrozenPeriod)
      → parse_periods is_datetime js ≡ some ps
      → All
          (λ (p : FrozenPeriod).
            (is_datetime p.start_date ≡ true) × (is_datetime p.end_date ≡ true))
          ps
  unfolding parse_periods parse_period check_datetime
  parse_periods-dates nil [] e = tt
  parse_periods-dates nil (p ∷ ps) e = cc
  parse_periods-dates (cons j js) [] e = tt
  parse_periods-dates (cons j js) (p ∷ ps) e = ground (arith, parse_periods-dates js ps)

  year_again :
      (m : Option Text) (year : Text)
      → (m >>= school_year_schema) ≡ some year
      → school_year_schema year ≡ some year
  year_again none year e = cc
  year_again (some raw) year e = school_year_schema_again raw year e

  items_dates :
      (m : Option Items) (ps : List FrozenPeriod)
      → (m >>= parse_periods is_datetime) ≡ some ps
      → All
          (λ (p : FrozenPeriod).
            (is_datetime p.start_date ≡ true) × (is_datetime p.end_date ≡ true))
          ps
  items_dates none ps e = cc
  items_dates (some js) ps e = parse_periods-dates js ps e

  stamp_checked :
      (m : Option Text) (stamp : Text)
      → (m >>= check_datetime is_datetime) ≡ some stamp
      → is_datetime stamp ≡ true
  unfolding check_datetime
  stamp_checked none stamp e = cc
  stamp_checked (some raw) stamp e = ground arith

  -- Whatever parses is sound, so that it reads back once it is written.
  parse_v1-Ensures : (o : Members) → Ensures IsSound (parse_v1 is_datetime o)
  unfolding parse_v1
  parse_v1-Ensures o =
      Ensures-bind (get "schoolYear" o >>= as_str >>= school_year_schema) _
        λ school_year school_year_is.
          Ensures-bind (get "semester" o >>= as_str >>= parse_semester) _ λ semester semester_is.
            Ensures-bind (get "mandatory" o >>= as_bool) _ λ mandatory mandatory_is.
              Ensures-bind (get "service" o >>= as_nullable_str) _ λ service service_is.
                Ensures-bind (get "projectType" o >>= as_nullable_str) _
                  λ project_type project_type_is.
                    Ensures-bind (get "motivation" o >>= as_nullable_str) _
                      λ motivation motivation_is.
                        Ensures-bind (get "organism" o >>= as_obj >>= parse_organism) _
                          λ organism organism_is.
                            Ensures-bind (get "tutor" o >>= as_obj >>= parse_tutor) _
                              λ tutor tutor_is.
                                Ensures-bind
                                  (get "periods" o >>= as_arr >>= parse_periods is_datetime) _
                                  λ periods periods_is.
                                    Ensures-bind (get "referent" o >>= as_obj >>= parse_referent) _
                                      λ referent referent_is.
                                        Ensures-bind
                                          (get "promotion" o >>= as_str >>= parse_promotion) _
                                          λ promotion promotion_is.
                                            Ensures-bind
                                              (get "decidedAt" o
                                                >>= as_str
                                                >>= check_datetime is_datetime)
                                              _
                                              λ decided_at decided_at_is.
                                                Ensures-bind
                                                  (get "decidedBy" o
                                                    >>= as_obj
                                                    >>= parse_decided_by)
                                                  _
                                                  λ decided_by decided_by_is.
                                                    Ensures-some _ (record {
                                                      school_year =
                                                          year_again (get "schoolYear" o >>= as_str)
                                                            school_year school_year_is;
                                                      dates =
                                                          items_dates (get "periods" o >>= as_arr)
                                                            periods periods_is;
                                                      decided_at =
                                                          stamp_checked
                                                            (get "decidedAt" o >>= as_str)
                                                            decided_at decided_at_is;
                                                    })

  pub parse_stage_snapshot-IsSound :
      (j : Option Json) (v : Option ℕ) (s : Snapshot)
      → parse_stage_snapshot is_datetime j v ≡ some s
      → IsSound s
  unfolding parse_stage_snapshot
  parse_stage_snapshot-IsSound j none s e = cc
  parse_stage_snapshot-IsSound none (some v) s e = cc
  parse_stage_snapshot-IsSound (some (obj o)) (some v) s e =
      (parse_v1-Ensures o).at s (ground arith)
  parse_stage_snapshot-IsSound (some _) (some v) s e = ground arith
