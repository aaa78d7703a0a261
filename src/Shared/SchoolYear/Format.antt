-- ===== src/Shared/SchoolYear/Format.antt =====
-- A school year that the schema accepts is accepted again as it is.
use campus_internship.Prelude.{
  ℕ, ◌≡◌, ◌+◌, ◌≤◌, ◌<◌, true, false, some, [], ◌∷◌, arith, Text, trim, is_space,
}
use campus_internship.Shared.SchoolYear.{
  SchoolYear, school_year_schema, school_year_of, matches_format,
}
use campus_internship.Shared.SchoolYear.Decimal.{is_digit, show_four, number-show}
use campus_internship.Shared.SchoolYear.Laws.{split_dash-school_year_of}

digit-not-space : (c : ℕ) → is_digit c ≡ true → is_space c ≡ false
unfolding is_space
digit-not-space c h = ground arith

-- a text of nine characters between two that are no spaces
trim_nine :
    (a b c d e f g h i : ℕ)
    → is_space a ≡ false
    → is_space i ≡ false
    → trim (a ∷ b ∷ c ∷ d ∷ e ∷ f ∷ g ∷ h ∷ i ∷ []) ≡ a ∷ b ∷ c ∷ d ∷ e ∷ f ∷ g ∷ h ∷ i ∷ []
unfolding trim
trim_nine a b c d e f g h i p q = rw (p, q)

trim-matches_format : (s : Text) → matches_format s ≡ true → trim s ≡ s
unfolding matches_format
trim-matches_format (a ∷ b ∷ c ∷ d ∷ e ∷ f ∷ g ∷ h ∷ i ∷ []) m =
    trim_nine a b c d e f g h i (digit-not-space a (ground arith))
      (digit-not-space i (ground arith))
trim-matches_format _ m = cc

pub school_year_schema_again :
    (s value : SchoolYear)
    → school_year_schema s ≡ some value
    → school_year_schema value ≡ some value
unfolding school_year_schema
school_year_schema_again s value e =
    let m : matches_format value ≡ true = ground arith in
    ground (arith, trim-matches_format value m)

matches_format-school_year_of :
    (y : ℕ) → 1000 ≤ y → y < 9999 → matches_format (school_year_of y) ≡ true
unfolding matches_format school_year_of
matches_format-school_year_of y h k =
    rw (show_four y h (omega arith), show_four (y + 1) (omega arith) (omega arith)) (ground arith)

-- The school year that starts in a year of four digits, the next one having four digits too, is
-- accepted by the schema as it is.
pub school_year_schema-school_year_of :
    (y : ℕ) → 1000 ≤ y → y < 9999 → school_year_schema (school_year_of y) ≡ some (school_year_of y)
unfolding school_year_schema
school_year_schema-school_year_of y h k =
    let m = matches_format-school_year_of y h k in
    rw
      (
        trim-matches_format (school_year_of y) m,
        m,
        split_dash-school_year_of y,
        number-show y,
        number-show (y + 1),
      )
      (ground arith)
