-- ===== src/Prelude/Trim.antt =====
-- `String.prototype.trim` and blank texts.
use mathlib.Core.Path.{◌≡◌, refl, ap, ◌∙◌}
use mathlib.Core.Bool.{Bool, true, false, not, ◌||◌}
use mathlib.Core.List.{List, [], ◌∷◌, ◌++◌, reverse, reverse-cons}
use native.Mathlib.Omega.{arith}
use campus_internship.Prelude.Lists.{any}
use campus_internship.Prelude.Strings.{Text, is_space, trim, trim_start}

abbrev pub no_units : Text → Bool
no_units [] = true
no_units (c ∷ s) = false

-- a unit that is no white space
abbrev pub has_ink : Text → Bool
has_ink s = any (λ c. not (is_space c)) s

pub any-append :
    {A : Type 0} (p : A → Bool) (xs ys : List A) → any p (xs ++ ys) ≡ (any p xs || any p ys)
any-append p [] ys = refl
any-append p (x ∷ xs) ys = ground (arith, any-append p xs ys)

has_ink-reverse : (s : Text) → has_ink (reverse s) ≡ has_ink s
has_ink-reverse [] = refl
has_ink-reverse (c ∷ s) =
    ap has_ink (reverse-cons c s)
    ∙ any-append (λ u. not (is_space u)) (reverse s) (c ∷ [])
    ∙ ground (arith, has_ink-reverse s)

has_ink-trim_start : (s : Text) → has_ink (trim_start s) ≡ has_ink s
unfolding trim_start
has_ink-trim_start [] = refl
has_ink-trim_start (c ∷ s) = ground (arith, has_ink-trim_start s)

-- what is trimmed is empty or has ink
no_units-trim_start : (s : Text) → no_units (trim_start s) ≡ not (has_ink s)
unfolding trim_start
no_units-trim_start [] = refl
no_units-trim_start (c ∷ s) = ground (arith, no_units-trim_start s)

no_units-reverse : (s : Text) → no_units (reverse s) ≡ no_units s
no_units-reverse [] = refl
no_units-reverse (c ∷ s) = ap no_units (reverse-cons c s) ∙ last (reverse s)
  where
    last : (t : Text) → no_units (t ++ c ∷ []) ≡ false
    last [] = refl
    last (d ∷ t) = refl

pub has_ink-trim : (s : Text) → has_ink (trim s) ≡ has_ink s
unfolding trim
has_ink-trim s =
    has_ink-reverse (trim_start (reverse (trim_start s)))
    ∙ has_ink-trim_start (reverse (trim_start s))
    ∙ has_ink-reverse (trim_start s)
    ∙ has_ink-trim_start s

pub no_units-trim : (s : Text) → no_units (trim s) ≡ not (has_ink s)
unfolding trim
no_units-trim s =
    no_units-reverse (trim_start (reverse (trim_start s)))
    ∙ no_units-trim_start (reverse (trim_start s))
    ∙ ap not (has_ink-reverse (trim_start s) ∙ has_ink-trim_start s)
