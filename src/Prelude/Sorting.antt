-- ===== src/Prelude/Sorting.antt =====
-- `Array.prototype.sort`, which is stable, and what it gives.
use mathlib.Core.Path.{◌≡◌, refl, ap, ◌∙◌}
use mathlib.Core.Logic.{inl, inr}
use mathlib.Core.Bool.{Bool, true, false}
use mathlib.Core.List.{List, [], ◌∷◌, ◌++◌, map}
use native.Mathlib.Omega.{arith}
use campus_internship.Prelude.Tests.{if◌then◌else◌, Bool-cases}
use campus_internship.Prelude.Lists.{All, All-append, select}

module _ {ℓ} {A : Type ℓ} where
  -- before the first element that does not come earlier
  insert_by : (A → A → Bool) → A → List A → List A
  insert_by le x [] = x ∷ []
  insert_by le x (y ∷ ys) =
      let later = y ∷ insert_by le x ys in if le x y then x ∷ y ∷ ys else later

  unfoldable pub sort_by : (A → A → Bool) → List A → List A
  unfolding insert_by
  sort_by le [] = []
  sort_by le (x ∷ xs) = insert_by le x (sort_by le xs)

  -- every element is related to every later one
  abbrev pub Ordered : (A → A → Type 0) → List A → Type 0
  Ordered R [] = Unit
  Ordered R (x ∷ xs) = All (R x) xs × Ordered R xs

  pub Ordered-append :
      (R : A → A → Type 0) (xs ys : List A)
      → Ordered R xs
      → Ordered R ys
      → All (λ x. All (R x) ys) xs
      → Ordered R (xs ++ ys)
  Ordered-append R [] ys h k m = k
  Ordered-append R (x ∷ xs) ys h k m =
      (All-append (R x) xs ys h.0 m.0, Ordered-append R xs ys h.1 k m.1)

  module _ (le : A → A → Bool) where
    insert_by-All :
        (P : A → Type 0) (x : A) (ys : List A) → P x → All P ys → All P (insert_by le x ys)
    unfolding insert_by
    insert_by-All P x [] p h = (p, tt)
    insert_by-All P x (y ∷ ys) p h = elim (Bool-cases (le x y)) [
      | inl e ↦ rw e (p, h)
      | inr e ↦ rw e (h.0, insert_by-All P x ys p h.1)
    ]

    pub sort_by-All : (P : A → Type 0) (xs : List A) → All P xs → All P (sort_by le xs)
    unfolding sort_by
    sort_by-All P [] h = tt
    sort_by-All P (x ∷ xs) h = insert_by-All P x (sort_by le xs) h.0 (sort_by-All P xs h.1)

    module _ (R : A → A → Type 0) (here : (x y : A) → le x y ≡ true → R x y)
        (there : (x y : A) → le x y ≡ false → R y x)
        (trans : (x y z : A) → R x y → R y z → R x z) where
      widen : (x y : A) (ys : List A) → R x y → All (R y) ys → All (R x) ys
      widen x y [] r h = tt
      widen x y (z ∷ zs) r h = (trans x y z r h.0, widen x y zs r h.1)

      insert_by-Ordered : (x : A) (ys : List A) → Ordered R ys → Ordered R (insert_by le x ys)
      unfolding insert_by
      insert_by-Ordered x [] h = (tt, tt)
      insert_by-Ordered x (y ∷ ys) h = elim (Bool-cases (le x y)) [
        | inl e ↦ rw e ((here x y e, widen x y ys (here x y e) h.0), h)
        | inr e ↦ rw e (insert_by-All (R y) x ys (there x y e) h.0, insert_by-Ordered x ys h.1)
      ]

      pub sort_by-Ordered : (xs : List A) → Ordered R (sort_by le xs)
      unfolding sort_by
      sort_by-Ordered [] = tt
      sort_by-Ordered (x ∷ xs) = insert_by-Ordered x (sort_by le xs) (sort_by-Ordered xs)

    module _ (q : A → Bool) (same : (x y : A) → q x ≡ true → q y ≡ true → le x y ≡ true) where
      select-insert_by : (x : A) (ys : List A) → select q (insert_by le x ys) ≡ select q (x ∷ ys)
      unfolding insert_by
      select-insert_by x [] = refl
      select-insert_by x (y ∷ ys) = elim (Bool-cases (le x y)) [
        | inl e ↦ rw e
        | inr e ↦ elim (Bool-cases (q y)) [
          | inl t ↦ ground (arith, same x y, select-insert_by x ys)
          | inr t ↦ rw (e, t) (select-insert_by x ys)
        ]
      ]

      -- elements that are equal for the order keep their order
      pub select-sort_by : (xs : List A) → select q (sort_by le xs) ≡ select q xs
      unfolding sort_by
      select-sort_by [] = refl
      select-sort_by (x ∷ xs) =
          select-insert_by x (sort_by le xs)
          ∙ ap (λ r. if q x then x ∷ r else r) (select-sort_by xs)

-- all pairs across two lists
pub All-cross :
    {A B : Type 0} {P : A → Type 0} {Q : B → Type 0} (R : A → B → Type 0)
    → ((x : A) (y : B) → P x → Q y → R x y)
    → (xs : List A) (ys : List B) → All P xs
    → All Q ys
    → All (λ x. All (R x) ys) xs
All-cross R f [] ys h k = tt
All-cross {A} {B} {P} {Q} R f (x ∷ xs) ys h k = (row ys k, All-cross R f xs ys h.1 k)
  where
    row : (zs : List B) → All Q zs → All (R x) zs
    row [] m = tt
    row (z ∷ zs) m = (f x z h.0 m.0, row zs m.1)

pub All-weaken :
    {A : Type 0} {P Q : A → Type 0} → ((x : A) → P x → Q x) → (xs : List A) → All P xs → All Q xs
All-weaken f [] h = tt
All-weaken f (x ∷ xs) h = (f x h.0, All-weaken f xs h.1)

pub All-map :
    {A B : Type 0} {P : A → Type 0} (Q : B → Type 0) (f : A → B)
    → ((x : A) → P x → Q (f x))
    → (xs : List A) → All P xs
    → All Q (map f xs)
All-map Q f g [] h = tt
All-map Q f g (x ∷ xs) h = (g x h.0, All-map Q f g xs h.1)

pub Ordered-map :
    {A B : Type 0} {P : A → Type 0} {R : A → A → Type 0} (S : B → B → Type 0) (f : A → B)
    → ((x y : A) → P x → P y → R x y → S (f x) (f y))
    → (xs : List A) → All P xs
    → Ordered R xs
    → Ordered S (map f xs)
Ordered-map S f g [] h k = tt
Ordered-map {A} {B} {P} {R} S f g (x ∷ xs) h k = (row xs h.1 k.0, Ordered-map S f g xs h.1 k.1)
  where
    row : (zs : List A) → All P zs → All (R x) zs → All (S (f x)) (map f zs)
    row [] m n = tt
    row (z ∷ zs) m n = (g x z h.0 m.0 n.0, row zs m.1 n.1)

-- tests that agree on a list select the same from it
pub select_cong :
    {A : Type 0} (p q : A → Bool) (xs : List A)
    → All (λ x. p x ≡ q x) xs
    → select p xs ≡ select q xs
select_cong p q [] h = refl
select_cong p q (x ∷ xs) h = rw (h.0, select_cong p q xs h.1)

pub select-map :
    {A B : Type 0} (p : B → Bool) (f : A → B) (xs : List A)
    → select p (map f xs) ≡ map f (select (λ x. p (f x)) xs)
select-map p f [] = refl
select-map p f (x ∷ xs) = ground (arith, select-map p f xs)

pub select_none :
    {A : Type 0} (p : A → Bool) (xs : List A) → All (λ x. p x ≡ false) xs → select p xs ≡ []
select_none p [] h = refl
select_none p (x ∷ xs) h = rw h.0 (select_none p xs h.1)

pub select_whole :
    {A : Type 0} (p : A → Bool) (xs : List A) → All (λ x. p x ≡ true) xs → select p xs ≡ xs
select_whole p [] h = refl
select_whole p (x ∷ xs) h = rw h.0 (ap (λ r. x ∷ r) (select_whole p xs h.1))

pub select-append :
    {A : Type 0} (p : A → Bool) (xs ys : List A) → select p (xs ++ ys) ≡ select p xs ++ select p ys
select-append p [] ys = refl
select-append p (x ∷ xs) ys = ground (arith, select-append p xs ys)
