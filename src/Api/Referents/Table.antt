-- ===== src/Api/Referents/Table.antt =====
-- The rows of the assignments, as a map from tuples to referents: what an update of the rows of a tuple
-- and an insert change of it.
use campus_internship.Prelude.{
  ◌≡◌, refl, ap, ◌∙◌, Bool, true, false, Option, none, some, List, [], ◌∷◌, ◌++◌, arith, All,
  if◌then◌else◌, Bool-cases, inl, inr, text_eq_iff, text_eq_refl,
}
use campus_internship.Prelude.Sorting.{Ordered, Ordered-append, All-cross}
use campus_internship.Shared.Enums.{Semester, s1, s2, semester_eq, bool_eq}
use campus_internship.Api.Schema.{Uuid, ReferentAssignment}
use campus_internship.Api.Prisma.{find?, update_where}
use campus_internship.Api.Referents.{Tuple, tuple_eq, tuple_of}

-- the referent of a tuple
unfoldable pub referent_of : Tuple → List ReferentAssignment → Option Uuid
referent_of k [] = none
referent_of k (a ∷ rows) =
    let rest = referent_of k rows in if tuple_eq (tuple_of a) k then some a.referent_id else rest

-- a map with one entry changed
abbrev pub put : Tuple → Uuid → (Tuple → Option Uuid) → Tuple → Option Uuid
put j id m k = if tuple_eq j k then some id else m k

-- no two rows have the same tuple
abbrev pub OneRowEach : List ReferentAssignment → Type 0
OneRowEach = Ordered (λ a b. tuple_eq (tuple_of a) (tuple_of b) ≡ false)

semester_eq→eq : (s t : Semester) → semester_eq s t ≡ true → s ≡ t
semester_eq→eq s1 s1 e = refl
semester_eq→eq s1 s2 e = cc
semester_eq→eq s2 s1 e = cc
semester_eq→eq s2 s2 e = refl

bool_eq→eq : (a b : Bool) → bool_eq a b ≡ true → a ≡ b
bool_eq→eq true true e = refl
bool_eq→eq true false e = cc
bool_eq→eq false true e = cc
bool_eq→eq false false e = refl

pub tuple_eq→eq : (j k : Tuple) → tuple_eq j k ≡ true → j ≡ k
tuple_eq→eq j k e =
    let student : j.student_id ≡ k.student_id = ground arith in
    let year : j.school_year ≡ k.school_year =
      ground (arith, text_eq_iff j.school_year k.school_year) in
    let semester : j.semester ≡ k.semester = semester_eq→eq j.semester k.semester (ground arith) in
    let kind : j.mandatory ≡ k.mandatory = bool_eq→eq j.mandatory k.mandatory (ground arith) in
    λ i. record {
      student_id = student i;
      school_year = year i;
      semester = semester i;
      mandatory = kind i;
    }

semester_eq_refl : (s : Semester) → semester_eq s s ≡ true
semester_eq_refl s1 = refl
semester_eq_refl s2 = refl

bool_eq_refl : (b : Bool) → bool_eq b b ≡ true
bool_eq_refl true = refl
bool_eq_refl false = refl

pub tuple_eq_refl : (k : Tuple) → tuple_eq k k ≡ true
tuple_eq_refl k =
    ground
      (arith, text_eq_refl k.school_year, semester_eq_refl k.semester, bool_eq_refl k.mandatory)

module _ (d : Tuple) (id : Uuid) where
  abbrev pub is_row : ReferentAssignment → Bool
  is_row a = tuple_eq (tuple_of a) d

  abbrev pub reassigned : List ReferentAssignment → List ReferentAssignment
  reassigned = update_where is_row (λ a. record a { referent_id = id })

  pub referent_of-reassigned :
      (rows : List ReferentAssignment) (x : ReferentAssignment)
      → find? is_row rows ≡ some x
      → referent_of d (reassigned rows) ≡ some id
  unfolding find? update_where referent_of
  referent_of-reassigned [] x e = cc
  referent_of-reassigned (a ∷ rows) x e = elim (Bool-cases (is_row a)) [
    | inl t ↦ rw (t, t)
    | inr f ↦ rw (f, f) (referent_of-reassigned rows x (ground arith))
  ]

  pub referent_of-other :
      (k : Tuple) (rows : List ReferentAssignment)
      → tuple_eq d k ≡ false
      → referent_of k (reassigned rows) ≡ referent_of k rows
  unfolding update_where referent_of
  referent_of-other k [] e = refl
  referent_of-other k (a ∷ rows) e = elim (Bool-cases (is_row a)) [
    | inl t ↦
        let miss : tuple_eq (tuple_of a) k ≡ false =
          ap (λ j. tuple_eq j k) (tuple_eq→eq (tuple_of a) d t) ∙ e in
        rw (t, miss) (referent_of-other k rows e)
    | inr f ↦ rw (f, referent_of-other k rows e)
  ]

  pub referent_of-appended :
      (rows : List ReferentAssignment) (a : ReferentAssignment)
      → find? is_row rows ≡ none
      → tuple_of a ≡ d
      → referent_of d (rows ++ a ∷ []) ≡ some a.referent_id
  unfolding find? referent_of
  referent_of-appended [] a e h =
      let at : tuple_eq (tuple_of a) d ≡ true = ap (λ j. tuple_eq j d) h ∙ tuple_eq_refl d in rw at
  referent_of-appended (b ∷ rows) a e h = elim (Bool-cases (is_row b)) [
    | inl t ↦ ground arith
    | inr f ↦ rw f (referent_of-appended rows a (ground arith) h)
  ]

  pub referent_of-beside :
      (k : Tuple) (rows : List ReferentAssignment) (a : ReferentAssignment)
      → tuple_of a ≡ d
      → tuple_eq d k ≡ false
      → referent_of k (rows ++ a ∷ []) ≡ referent_of k rows
  unfolding referent_of
  referent_of-beside k [] a h e =
      let miss : tuple_eq (tuple_of a) k ≡ false = ap (λ j. tuple_eq j k) h ∙ e in rw miss
  referent_of-beside k (b ∷ rows) a h e =
      ap (λ r. if tuple_eq (tuple_of b) k then some b.referent_id else r)
        (referent_of-beside k rows a h e)

  -- neither write makes a second row of a tuple
  reassigned-All :
      (j : Tuple) (rows : List ReferentAssignment)
      → All (λ b. tuple_eq j (tuple_of b) ≡ false) rows
      → All (λ b. tuple_eq j (tuple_of b) ≡ false) (reassigned rows)
  unfolding update_where
  reassigned-All j [] h = tt
  reassigned-All j (a ∷ rows) h = elim (Bool-cases (is_row a)) [
    | inl t ↦ rw t (h.0, reassigned-All j rows h.1)
    | inr f ↦ rw f (h.0, reassigned-All j rows h.1)
  ]

  pub reassigned-OneRowEach :
      (rows : List ReferentAssignment) → OneRowEach rows → OneRowEach (reassigned rows)
  unfolding update_where
  reassigned-OneRowEach [] h = tt
  reassigned-OneRowEach (a ∷ rows) h = elim (Bool-cases (is_row a)) [
    | inl t ↦ rw t (reassigned-All (tuple_of a) rows h.0, reassigned-OneRowEach rows h.1)
    | inr f ↦ rw f (reassigned-All (tuple_of a) rows h.0, reassigned-OneRowEach rows h.1)
  ]

  missing-All :
      (rows : List ReferentAssignment)
      → find? is_row rows ≡ none
      → All (λ a. tuple_eq (tuple_of a) d ≡ false) rows
  unfolding find?
  missing-All [] e = tt
  missing-All (a ∷ rows) e = elim (Bool-cases (is_row a)) [
    | inl t ↦ ground arith
    | inr f ↦ (f, missing-All rows (ground arith))
  ]

  pub appended-OneRowEach :
      (rows : List ReferentAssignment) (a : ReferentAssignment)
      → find? is_row rows ≡ none
      → tuple_of a ≡ d
      → OneRowEach rows
      → OneRowEach (rows ++ a ∷ [])
  appended-OneRowEach rows a e h unique =
      Ordered-append _ rows (a ∷ []) unique (tt, tt)
        (All-cross _ (λ x y p (q : tuple_of y ≡ d). ap (tuple_eq (tuple_of x)) q ∙ p) rows (a ∷ [])
          (missing-All rows e) (h, tt))
