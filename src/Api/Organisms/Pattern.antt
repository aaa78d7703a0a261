-- ===== src/Api/Organisms/Pattern.antt =====
-- What the pattern of a search matches.
use campus_internship.Prelude.{
  ℕ, ◌≡◌, ap, ◌∙◌, Bool, true, false, ◌&&◌, ◌||◌, [], ◌∷◌, ◌++◌, Text, arith, Bool-cases, inl, inr,
}
use campus_internship.Prelude.Trim.{no_units}
use campus_internship.Api.Organisms.{is_meta, escape_like_pattern, search_pattern}

-- The documented behaviour of a match by `LIKE`, or by `ILIKE` for a comparison that ignores the
-- case: a percent sign stands for any text, a backslash takes the unit after it as it is, and a unit
-- without a meaning of its own stands for itself.
pub record IsLike (same : ℕ → ℕ → Bool) (like : Text → Text → Bool) : Type 0 where
  pub end : (s : Text) → like [] s ≡ no_units s
  pub percent_end : (p : Text) → like (37 ∷ p) [] ≡ like p []
  pub percent :
      (p : Text) (u : ℕ) (s : Text) → like (37 ∷ p) (u ∷ s) ≡ (like p (u ∷ s) || like (37 ∷ p) s)
  pub escaped_end : (c : ℕ) (p : Text) → like (92 ∷ c ∷ p) [] ≡ false
  pub escaped :
      (c : ℕ) (p : Text) (u : ℕ) (s : Text) → like (92 ∷ c ∷ p) (u ∷ s) ≡ (same c u && like p s)
  pub plain_end : (c : ℕ) (p : Text) → is_meta c ≡ false → like (c ∷ p) [] ≡ false
  pub plain :
      (c : ℕ) (p : Text) (u : ℕ) (s : Text)
      → is_meta c ≡ false
      → like (c ∷ p) (u ∷ s) ≡ (same c u && like p s)

module _ (same : ℕ → ℕ → Bool) where
  abbrev pub starts : Text → Text → Bool
  starts [] s = true
  starts (c ∷ t) [] = false
  starts (c ∷ t) (u ∷ s) = same c u && starts t s

  -- the text occurs somewhere
  abbrev pub occurs : Text → Text → Bool
  occurs t [] = starts t []
  occurs t (u ∷ s) = starts t (u ∷ s) || occurs t s

module _ (same : ℕ → ℕ → Bool) (like : Text → Text → Bool) (law : IsLike same like) where
  anything : (s : Text) → like (37 ∷ []) s ≡ true
  anything [] = law.percent_end [] ∙ law.end []
  anything (u ∷ s) = ground (arith, law.percent [] u s, anything s)

  escaped-starts : (t s : Text) → like (escape_like_pattern t ++ 37 ∷ []) s ≡ starts same t s
  unfolding escape_like_pattern
  escaped-starts [] s = anything s
  escaped-starts (c ∷ t) [] = elim (Bool-cases (is_meta c)) [
    | inl y ↦ rw y (law.escaped_end c _)
    | inr n ↦ rw n (law.plain_end c _ n)
  ]
  escaped-starts (c ∷ t) (u ∷ s) = elim (Bool-cases (is_meta c)) [
    | inl y ↦ rw y (law.escaped c _ u s ∙ ap (λ b. same c u && b) (escaped-starts t s))
    | inr n ↦ rw n (law.plain c _ u s n ∙ ap (λ b. same c u && b) (escaped-starts t s))
  ]

  -- Matched as it is, the pattern that is built from a text matches exactly the texts in which that
  -- text occurs, whatever metacharacters it has.
  pub search_pattern-occurs : (t s : Text) → like (search_pattern t) s ≡ occurs same t s
  search_pattern-occurs t [] = law.percent_end _ ∙ escaped-starts t []
  search_pattern-occurs t (u ∷ s) =
      rw (law.percent (escape_like_pattern t ++ 37 ∷ []) u s, escaped-starts t (u ∷ s))
        (ap (λ b. starts same t (u ∷ s) || b) (search_pattern-occurs t s))
