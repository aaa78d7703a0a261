-- ===== src/Prelude/Selecting.antt =====
-- What holds of the elements of a list that a test selects, or of all.
use mathlib.Core.Path.{◌≡◌, refl}
use mathlib.Core.Logic.{inl, inr}
use mathlib.Core.Bool.{Bool, true, false, not, ◌&&◌}
use mathlib.Core.List.{List, [], ◌∷◌}
use native.Mathlib.Omega.{arith}
use campus_internship.Prelude.Tests.{Bool-cases}
use campus_internship.Prelude.Lists.{All, select, any}
use campus_internship.Prelude.Sorting.{All-weaken}

pub All-everywhere : {A : Type 0} {P : A → Type 0} → ((x : A) → P x) → (xs : List A) → All P xs
All-everywhere f [] = tt
All-everywhere f (x ∷ xs) = (f x, All-everywhere f xs)

pub All-zip :
    {A : Type 0} {P Q R : A → Type 0}
    → ((x : A) → P x → Q x → R x)
    → (xs : List A) → All P xs
    → All Q xs
    → All R xs
All-zip f [] h k = tt
All-zip f (x ∷ xs) h k = (f x h.0 k.0, All-zip f xs h.1 k.1)

pub select-select :
    {A : Type 0} (p q : A → Bool) (xs : List A)
    → select p (select q xs) ≡ select (λ x. q x && p x) xs
select-select p q [] = refl
select-select p q (x ∷ xs) = ground (arith, select-select p q xs)

pub none_of :
    {A : Type 0} (q : A → Bool) (xs : List A)
    → All (λ x. q x ≡ true) xs
    → any (λ x. not (q x)) xs ≡ false
none_of q [] h = refl
none_of q (x ∷ xs) h = ground (arith, h.0, none_of q xs h.1)

pub none_of_back :
    {A : Type 0} (q : A → Bool) (xs : List A)
    → any (λ x. not (q x)) xs ≡ false
    → All (λ x. q x ≡ true) xs
none_of_back q [] e = tt
none_of_back q (x ∷ xs) e = (ground arith, none_of_back q xs (ground arith))

module _ {A : Type 0} (Q : A → Type 0) where
  pub All-into :
      (p : A → Bool) (rows : List A) → All (λ x. p x ≡ true → Q x) rows → All Q (select p rows)
  All-into p [] h = tt
  All-into p (x ∷ xs) h = elim (Bool-cases (p x)) [
    | inl t ↦ rw t (h.0 t, All-into p xs h.1)
    | inr f ↦ rw f (All-into p xs h.1)
  ]

  kept-All : (q : A → Bool) (x : A) (xs : List A) → All Q (select q (x ∷ xs)) → All Q (select q xs)
  kept-All q x xs =
      elim (Bool-cases (q x)) as (λ d. All Q (select q (x ∷ xs)) → All Q (select q xs)) [
        | inl t ↦ rw t (λ k. k.1)
        | inr f ↦ rw f (λ k. k)
      ]

  head-All : (q : A → Bool) (x : A) (xs : List A) → q x ≡ true → All Q (select q (x ∷ xs)) → Q x
  head-All q x xs t = rw t (λ k. k.0)

  -- what holds of the selected rows, for a test that follows from another one
  pub All-select :
      (p q : A → Bool) (rows : List A)
      → All (λ x. p x ≡ true → q x ≡ true) rows
      → All Q (select q rows)
      → All Q (select p rows)
  All-select p q [] h k = tt
  All-select p q (x ∷ xs) h k = elim (Bool-cases (p x)) [
    | inl t ↦ rw t (head-All q x xs (h.0 t) k, All-select p q xs h.1 (kept-All q x xs k))
    | inr f ↦ rw f (All-select p q xs h.1 (kept-All q x xs k))
  ]

  pub All-unselect :
      (p : A → Bool) (rows : List A) → All Q (select p rows) → All (λ x. p x ≡ true → Q x) rows
  All-unselect p [] k = tt
  All-unselect p (x ∷ xs) k = ((λ t. head-All p x xs t k), All-unselect p xs (kept-All p x xs k))

pub select-All : {A : Type 0} (p : A → Bool) (rows : List A) → All (λ x. p x ≡ true) (select p rows)
select-All p [] = tt
select-All p (x ∷ xs) = elim (Bool-cases (p x)) [
  | inl t ↦ rw t (t, select-All p xs)
  | inr f ↦ rw f (select-All p xs)
]

-- an element of a list meets a test that it meets with itself
pub any_self :
    {A : Type 0} (r : A → A → Bool)
    → ((x : A) → r x x ≡ true)
    → (xs : List A) → All (λ x. any (λ t. r t x) xs ≡ true) xs
any_self r same [] = tt
any_self r same (x ∷ xs) =
    (ground (arith, same x), All-weaken (λ y h. ground arith) xs (any_self r same xs))
