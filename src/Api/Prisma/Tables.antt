-- ===== src/Api/Prisma/Tables.antt =====
-- Facts about searches and updates of tables.
use campus_internship.Prelude.{
  ℕ, ◌≡◌, ◌≢◌, refl, sym, ◌∙◌, Bool-cases, inl, inr, Bool, true, false, Option, none, some, List,
  [], ◌∷◌, ◌++◌, arith, All, length, select, ◌==◌,
}
use campus_internship.Api.Http.{PrismaCode, ok}
use campus_internship.Api.Prisma.{find?, update_where, created}

module _ {A : Type 0} (p : A → Bool) where
  -- the row that is found meets the test, and whatever holds of all rows
  pub find?_test : (rows : List A) (r : A) → find? p rows ≡ some r → p r ≡ true
  unfolding find?
  find?_test [] r e = cc
  find?_test (x ∷ xs) r e = ground (arith, find?_test xs r)

  -- where a row is found, the rows that meet a test that the row meets are counted
  pub select-found :
      (q : A → Bool) (rows : List A) (r : A)
      → find? p rows ≡ some r
      → q r ≡ true
      → (length (select q rows) == 0) ≡ false
  unfolding find?
  select-found q [] r e h = cc
  select-found q (x ∷ xs) r e h = ground (arith, select-found q xs r)

-- a test that no row meets is met by the row that is added
pub find?-added :
    {A : Type 0} (p : A → Bool) (rows : List A) (r : A)
    → find? p rows ≡ none
    → p r ≡ true
    → find? p (rows ++ r ∷ []) ≡ some r
unfolding find?
find?-added p [] r e h = rw h
find?-added p (x ∷ xs) r e h = elim (Bool-cases (p x)) [
  | inl t ↦ ground arith
  | inr f ↦ rw f (find?-added p xs r (ground arith) h)
]

pub created-ok :
    {A : Type 0} (code : Option PrismaCode) (rows rows' : List A)
    → created code rows ≡ ok rows'
    → rows ≡ rows'
created-ok none rows rows' e = cc
created-ok (some code) rows rows' e = cc

-- the rows of a table have different keys
unfoldable pub Keyed : {A : Type 0} → (A → ℕ) → List A → Type 0
Keyed key [] = Unit
Keyed key (x ∷ xs) = All (λ y. key y ≢ key x) xs × Keyed key xs

module _ {A : Type 0} (key : A → ℕ) (q : A → Bool) (f : A → A) (k : ℕ)
    (only : (x : A) → q x ≡ true → key x ≡ k) where
  no_other :
      (x : A) (xs : List A)
      → key x ≡ k
      → All (λ y. key y ≢ key x) xs
      → (select q xs ≡ []) × (update_where q f xs ≡ xs)
  unfolding update_where
  no_other x [] e h = (refl, refl)
  no_other x (y ∷ ys) e h = elim (Bool-cases (q y)) [
    | inl t ↦ absurd (h.0 (only y t ∙ sym e))
    | inr t ↦ let (a, b) = no_other x ys e h.1 in (rw (t, a), rw (t, b))
  ]

  -- Where the row of a key does not meet a test that asks for the key, the test selects no row.
  pub select-missed :
      (rows : List A) (r : A)
      → Keyed key rows
      → find? (λ x. key x == k) rows ≡ some r
      → q r ≡ false
      → (select q rows ≡ []) × (update_where q f rows ≡ rows)
  unfolding find? update_where Keyed
  select-missed [] r h e miss = cc
  select-missed (x ∷ xs) r h e miss = elim (Bool-cases (key x == k)) [
    | inl t ↦
        let same : x ≡ r = ground arith in
        let at : key x ≡ k = ground arith in
        let (a, b) = no_other x xs at h.0 in
        let qx : q x ≡ false = rw same miss in (rw (qx, a), rw (qx, b))
    | inr t ↦
        let rest : find? (λ y. key y == k) xs ≡ some r = ground arith in
        let (a, b) = select-missed xs r h.1 rest miss in
        let qx : q x ≡ false = elim (Bool-cases (q x)) [
          | inl u ↦ ground (arith, only x u)
          | inr u ↦ u
        ] in
        (rw (qx, a), rw (qx, b))
  ]

  -- the row of the key after the update
  pub find?-update_where :
      (keeps : (x : A) → key (f x) ≡ key x) (rows : List A) (r : A)
      → find? (λ x. key x == k) rows ≡ some r
      → q r ≡ true
      → find? (λ x. key x == k) (update_where q f rows) ≡ some (f r)
  unfolding find? update_where
  find?-update_where keeps [] r e t = cc
  find?-update_where keeps (x ∷ xs) r e t = elim (Bool-cases (key x == k)) [
    | inl u ↦
        let same : x ≡ r = ground arith in
        let qx : q x ≡ true = rw same t in rw (qx, keeps x, u, same)
    | inr u ↦
        let rest : find? (λ y. key y == k) xs ≡ some r = ground arith in
        let later = find?-update_where keeps xs r rest t in
        let qx : q x ≡ false = elim (Bool-cases (q x)) [
          | inl v ↦ ground (arith, only x v)
          | inr v ↦ v
        ] in
        rw (qx, u, later)
  ]

module _ {A : Type 0} (key : A → ℕ) (q : A → Bool) (f : A → A)
    (keeps : (x : A) → key (f x) ≡ key x) where
  others_keep :
      (x y : A) (xs : List A)
      → key y ≡ key x
      → All (λ z. key z ≢ key x) xs
      → All (λ z. key z ≢ key y) (update_where q f xs)
  unfolding update_where
  others_keep x y [] e h = tt
  others_keep x y (z ∷ zs) e h = elim (Bool-cases (q z)) [
    | inl t ↦ rw t ((λ u. h.0 (sym (keeps z) ∙ u ∙ e)), others_keep x y zs e h.1)
    | inr t ↦ rw t ((λ u. h.0 (u ∙ e)), others_keep x y zs e h.1)
  ]

  -- An update that keeps the keys keeps them different.
  pub Keyed-update_where : (rows : List A) → Keyed key rows → Keyed key (update_where q f rows)
  unfolding update_where Keyed
  Keyed-update_where [] h = tt
  Keyed-update_where (x ∷ xs) h = elim (Bool-cases (q x)) [
    | inl t ↦ rw t (others_keep x (f x) xs (keeps x) h.0, Keyed-update_where xs h.1)
    | inr t ↦ rw t (others_keep x x xs refl h.0, Keyed-update_where xs h.1)
  ]
