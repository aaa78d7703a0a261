-- ===== src/Api/Organisms/Search.antt =====
-- Which organisms a search finds: `unaccent` is applied to the name and to the pattern, after the
-- metacharacters of the typed text were escaped.
use mathlib.Core.List.{append_assoc}
use campus_internship.Prelude.{
  ℕ, ◌≡◌, ◌⊎◌, refl, sym, ap, ◌∙◌, Bool, true, false, List, [], ◌∷◌, ◌++◌, map, any, All, Text,
  trim, arith, inl, inr, Bool-cases,
}
use campus_internship.Prelude.Trim.{no_units}
use campus_internship.Api.Http.{ok}
use campus_internship.Api.Schema.{HostOrganism}
use campus_internship.Api.World.{World, query}
use campus_internship.Api.Prisma.{Client}
use campus_internship.Api.Organisms.{
  OrganismItem, is_meta, escape_like_pattern, search_pattern, search_item, limit, search_organisms,
}
use campus_internship.Api.Organisms.Pattern.{IsLike, occurs, search_pattern-occurs}

-- The documented behaviour of `unaccent`: it replaces each unit by a text that its rules give, which is
-- the unit itself where there is no rule; and no rule is for a metacharacter.
pub record IsUnaccent (rule : ℕ → Text) (unaccent : Text → Text) : Type 0 where
  pub end : unaccent [] ≡ []
  pub step : (u : ℕ) (s : Text) → unaccent (u ∷ s) ≡ rule u ++ unaccent s
  pub keeps_meta : (u : ℕ) → is_meta u ≡ true → rule u ≡ u ∷ []

-- a unit that is a metacharacter, or that the rules do not turn into a text with one
abbrev pub IsSafe : (ℕ → Text) → ℕ → Type 0
IsSafe rule u = (is_meta u ≡ true) ⊎ (any is_meta (rule u) ≡ false)

escape-plain :
    (s t : Text) → any is_meta s ≡ false → escape_like_pattern (s ++ t) ≡ s ++ escape_like_pattern t
unfolding escape_like_pattern
escape-plain [] t e = refl
escape-plain (u ∷ s) t e =
    let here : is_meta u ≡ false = ground arith in
    let rest : any is_meta s ≡ false = ground arith in rw (here, escape-plain s t rest)

module _ (rule : ℕ → Text) (unaccent : Text → Text) (law : IsUnaccent rule unaccent) where
  unaccent-meta : (u : ℕ) (s : Text) → is_meta u ≡ true → unaccent (u ∷ s) ≡ u ∷ unaccent s
  unaccent-meta u s m = law.step u s ∙ ap (λ t. t ++ unaccent s) (law.keeps_meta u m)

  unaccent-append : (s t : Text) → unaccent (s ++ t) ≡ unaccent s ++ unaccent t
  unaccent-append [] t = rw (law.end)
  unaccent-append (u ∷ s) t =
      rw (law.step u (s ++ t), law.step u s, unaccent-append s t)
        (sym (append_assoc (rule u) (unaccent s) (unaccent t)))

  unaccent-escape :
      (t : Text)
      → All (IsSafe rule) t
      → unaccent (escape_like_pattern t) ≡ escape_like_pattern (unaccent t)
  unfolding escape_like_pattern
  unaccent-escape [] h = rw (law.end)
  unaccent-escape (u ∷ t) h = elim (Bool-cases (is_meta u)) [
    | inl m ↦ rw (
      m,
      unaccent-meta 92 (u ∷ escape_like_pattern t) refl,
      unaccent-meta u (escape_like_pattern t) m,
      unaccent-meta u t m,
      m,
      unaccent-escape t h.1,
    )
    | inr n ↦
        let plain : any is_meta (rule u) ≡ false = elim h.0 [ inl m ↦ ground arith | inr p ↦ p ] in
        rw n (
          law.step u (escape_like_pattern t)
          ∙ ap (λ s. rule u ++ s) (unaccent-escape t h.1)
          ∙ sym (ap escape_like_pattern (law.step u t) ∙ escape-plain (rule u) (unaccent t) plain))
  ]

  unaccent-search_pattern :
      (t : Text) → All (IsSafe rule) t → unaccent (search_pattern t) ≡ search_pattern (unaccent t)
  unaccent-search_pattern t h =
      let last : unaccent (37 ∷ []) ≡ 37 ∷ [] =
        unaccent-meta 37 [] refl ∙ ap (λ s. 37 ∷ s) law.end in
      unaccent-meta 37 (escape_like_pattern t ++ 37 ∷ []) refl
      ∙ ap (λ s. 37 ∷ s)
          (unaccent-append (escape_like_pattern t) (37 ∷ [])
            ∙ ap (λ s. s ++ unaccent (37 ∷ [])) (unaccent-escape t h)
            ∙ ap (λ s. escape_like_pattern (unaccent t) ++ s) last)

  module _ (c : Client) (same : ℕ → ℕ → Bool) (ilike : Text → Text → Bool)
      (like : IsLike same (λ p s. ilike s p)) (not_after : Text → Text → Bool) where
    -- the first twenty organisms, by name, of those that a test selects
    abbrev pub first_twenty : (HostOrganism → Bool) → List HostOrganism → List OrganismItem
    first_twenty test rows = map search_item (
        limit 20 (
          c.order_by HostOrganism (λ o p. not_after o.name p.name)
            (c.find_many HostOrganism test rows)))

    -- A search for a text that is not blank, none of whose units but the metacharacters is turned by
    -- `unaccent` into a text with a metacharacter, returns the first twenty by name of the organisms
    -- in whose unaccented name the unaccented, trimmed text occurs, and changes nothing.
    pub search_organisms-occurs :
        (typed : Text) (w : World)
        → no_units (trim typed) ≡ false
        → All (IsSafe rule) (trim typed)
        → search_organisms c unaccent ilike not_after typed w ≡ (
          ok (
              first_twenty
                (λ o. occurs same (unaccent (trim typed)) (unaccent o.name))
                w.db.organisms),
          w,
        )
    unfolding search_organisms query
    search_organisms-occurs typed w ink safe =
        let test : (o : HostOrganism)
            → ilike (unaccent o.name) (unaccent (search_pattern (trim typed)))
              ≡ occurs same (unaccent (trim typed)) (unaccent o.name) =
          λ o.
            ap (ilike (unaccent o.name)) (unaccent-search_pattern (trim typed) safe)
            ∙ search_pattern-occurs same (λ p s. ilike s p) like (unaccent (trim typed))
                (unaccent o.name) in
        rw ink (ap (λ t. (ok (first_twenty t w.db.organisms), w)) (λ i o. test o i))
