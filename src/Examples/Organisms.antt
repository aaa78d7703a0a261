-- ===== src/Examples/Organisms.antt =====
-- A search, and a match that computes.
use campus_internship.Prelude.{
  ℕ, inl, inr, trim, trim_start, is_space, ◌≡◌, ◌==◌, refl, Bool, true, false, ◌&&◌, ◌||◌, [], ◌∷◌,
  Text, arith, if◌then◌else◌,
}
use campus_internship.Prelude.Trim.{no_units}
use campus_internship.Api.Organisms.{is_meta, search_organisms}
use campus_internship.Api.Http.{ok}
use campus_internship.Api.Organisms.Pattern.{IsLike, occurs}
use campus_internship.Api.Organisms.Search.{IsUnaccent, first_twenty, search_organisms-occurs}
use campus_internship.Examples.Fixtures.{client, world}

abbrev some_suffix : (Text → Bool) → Text → Bool
some_suffix m [] = m []
some_suffix m (u ∷ s) = m (u ∷ s) || some_suffix m s

abbrev one_unit : (ℕ → Bool) → (Text → Bool) → Text → Bool
one_unit q m [] = false
one_unit q m (u ∷ s) = q u && m s

-- the flag says that a backslash came before
abbrev match_from : Bool → Text → Text → Bool
match_from true [] s = false
match_from false [] s = no_units s
match_from true (c ∷ p) s = one_unit (λ u. c == u) (match_from false p) s
match_from false (c ∷ p) s =
    let any_text = some_suffix (match_from false p) s in
    let quoted = match_from true p s in
    let any_unit = one_unit (λ u. true) (match_from false p) s in
    let unit = one_unit (λ u. c == u) (match_from false p) s in
    if c == 37 then any_text else if c == 92 then quoted else if c == 95 then any_unit else unit

abbrev matches : Text → Text → Bool
matches = match_from false

plain_match :
    (c : ℕ) (p s : Text)
    → is_meta c ≡ false
    → matches (c ∷ p) s ≡ one_unit (λ u. c == u) (matches p) s
plain_match c p s e = ground arith

matches-IsLike : IsLike (λ c u. c == u) matches
matches-IsLike = record {
  end = λ s. refl;
  percent_end = λ p. refl;
  percent = λ p u s. refl;
  escaped_end = λ c p. refl;
  escaped = λ c p u s. refl;
  plain_end = λ c p e. plain_match c p [] e;
  plain = λ c p u s e. plain_match c p (u ∷ s) e;
}

-- a database without accents
abbrev no_rule : ℕ → Text
no_rule u = u ∷ []

no_rule-IsUnaccent : IsUnaccent no_rule (λ s. s)
no_rule-IsUnaccent = record { end = refl; step = λ u s. refl; keeps_meta = λ u e. refl }

-- a typed `Cl%`
search_organisms-occurs_example :
    search_organisms client (λ s. s) (λ s p. matches p s) (λ s t. true) (67 ∷ 108 ∷ 37 ∷ []) world
    ≡ (
      ok (
          first_twenty no_rule
            (λ s. s)
            no_rule-IsUnaccent
            client
            (λ c u. c == u)
            (λ s p. matches p s)
            matches-IsLike
            (λ s t. true)
            (λ o. occurs (λ c u. c == u) (67 ∷ 108 ∷ 37 ∷ []) o.name)
            world.db.organisms),
      world,
    )
unfolding trim trim_start is_space
search_organisms-occurs_example =
    search_organisms-occurs no_rule (λ s. s) no_rule-IsUnaccent client (λ c u. c == u)
      (λ s p. matches p s) matches-IsLike (λ s t. true) (67 ∷ 108 ∷ 37 ∷ []) world refl
      (inr refl, (inr refl, (inl refl, tt)))
