-- ===== src/Api/Stages/Queue/Keys.antt =====
-- `tupleKey` tells tuples apart.
use mathlib.Core.List.{reverse, append_assoc, reverse-append, reverse-reverse, reverse-cons}
use campus_internship.Prelude.{
  ℕ, ◌≡◌, ◌==◌, refl, sym, ap, ◌∙◌, Bool, true, false, any, [], ◌∷◌, ◌++◌, arith, Bool-cases, inl,
  inr, Text, text, text_eq, text_eq_iff, text_eq_refl,
}
use campus_internship.Shared.Enums.{Semester, s1, s2}
use campus_internship.Api.Schema.{Uuid}
use campus_internship.Api.Referents.{Tuple, tuple_eq}
use campus_internship.Api.Referents.Table.{tuple_eq→eq, tuple_eq_refl}
use campus_internship.Api.Stages.Queue.{tuple_key, key_tail, semester_text, bool_text}

-- the separator "|"
abbrev pub has_bar : Text → Bool
has_bar s = any (λ c. c == 124) s

-- what stands before the first separator, and what stands after it
before_bar :
    (a b s t : Text)
    → has_bar a ≡ false
    → has_bar b ≡ false
    → a ++ 124 ∷ s ≡ b ++ 124 ∷ t
    → (a ≡ b) × (s ≡ t)
before_bar [] [] s t ha hb e = (refl, cc)
before_bar [] (d ∷ b) s t ha hb e = let bar : (d == 124) ≡ true = ground arith in ground arith
before_bar (c ∷ a) [] s t ha hb e = let bar : (c == 124) ≡ true = ground arith in ground arith
before_bar (c ∷ a) (d ∷ b) s t ha hb e =
    let rest : a ++ 124 ∷ s ≡ b ++ 124 ∷ t = cc in
    let (q, r) = before_bar a b s t (ground arith) (ground arith) rest in
    let same : c ≡ d = cc in ((λ i. same i ∷ q i), r)

reverse-bar : (xs ys : Text) → reverse (xs ++ 124 ∷ ys) ≡ reverse ys ++ 124 ∷ reverse xs
reverse-bar xs ys =
    reverse-append xs (124 ∷ ys)
    ∙ ap (λ r. r ++ reverse xs) (reverse-cons 124 ys)
    ∙ append_assoc (reverse ys) (124 ∷ []) (reverse xs)

semester_text-bar : (s : Semester) → has_bar (reverse (semester_text s)) ≡ false
semester_text-bar s1 = refl
semester_text-bar s2 = refl

bool_text-bar : (b : Bool) → has_bar (reverse (bool_text b)) ≡ false
bool_text-bar true = refl
bool_text-bar false = refl

abbrev first_unit : Text → ℕ
first_unit [] = 0
first_unit (c ∷ s) = c

semester_text-eq : (s t : Semester) → reverse (semester_text s) ≡ reverse (semester_text t) → s ≡ t
semester_text-eq s1 s1 e = refl
semester_text-eq s1 s2 e = let units : 49 ≡ 50 = ap first_unit e in absurd (omega (arith, units))
semester_text-eq s2 s1 e = let units : 50 ≡ 49 = ap first_unit e in absurd (omega (arith, units))
semester_text-eq s2 s2 e = refl

bool_text-eq : (a b : Bool) → reverse (bool_text a) ≡ reverse (bool_text b) → a ≡ b
bool_text-eq true true e = refl
bool_text-eq true false e = cc
bool_text-eq false true e = cc
bool_text-eq false false e = refl

reverse-eq : (s t : Text) → reverse s ≡ reverse t → s ≡ t
reverse-eq s t e = sym (reverse-reverse s) ∙ ap reverse e ∙ reverse-reverse t

-- the last two parts of a key have no separator, so that they are read off its end
key_tail-reverse :
    (k : Tuple)
    → reverse (key_tail k)
      ≡ reverse (bool_text k.mandatory)
        ++ 124 ∷ (reverse (semester_text k.semester) ++ 124 ∷ reverse k.school_year)
key_tail-reverse k =
    reverse-bar k.school_year (semester_text k.semester ++ (text "|" ++ bool_text k.mandatory))
    ∙ ap (λ r. r ++ 124 ∷ reverse k.school_year)
        (reverse-bar (semester_text k.semester) (bool_text k.mandatory))
    ∙ append_assoc (reverse (bool_text k.mandatory)) (124 ∷ reverse (semester_text k.semester))
        (124 ∷ reverse k.school_year)

module _ (show_id : Uuid → Text) (no_bar : (id : Uuid) → has_bar (show_id id) ≡ false)
    (show_eq : (i j : Uuid) → show_id i ≡ show_id j → i ≡ j) where
  tuple_key-eq : (j k : Tuple) → tuple_key show_id j ≡ tuple_key show_id k → j ≡ k
  unfolding tuple_key
  tuple_key-eq j k e =
      let (id, tail) =
        before_bar (show_id j.student_id) (show_id k.student_id) (key_tail j) (key_tail k)
          (no_bar j.student_id) (no_bar k.student_id) e in
      let turned = sym (key_tail-reverse j) ∙ ap reverse tail ∙ key_tail-reverse k in
      let (kind, rest) =
        before_bar (reverse (bool_text j.mandatory)) (reverse (bool_text k.mandatory)) _ _
          (bool_text-bar j.mandatory) (bool_text-bar k.mandatory) turned in
      let (semester, year) =
        before_bar (reverse (semester_text j.semester)) (reverse (semester_text k.semester)) _ _
          (semester_text-bar j.semester) (semester_text-bar k.semester) rest in
      let same_id = show_eq j.student_id k.student_id id in
      let same_year = reverse-eq j.school_year k.school_year year in
      let same_semester = semester_text-eq j.semester k.semester semester in
      let same_kind = bool_text-eq j.mandatory k.mandatory kind in
      λ i. record {
        student_id = same_id i;
        school_year = same_year i;
        semester = same_semester i;
        mandatory = same_kind i;
      }

  -- The keys of two tuples are equal exactly where the tuples are, for any text as school year, where the
  -- text of an id has no separator and two ids never have the same text.
  pub tuple_key_iff :
      (j k : Tuple) → text_eq (tuple_key show_id j) (tuple_key show_id k) ≡ tuple_eq j k
  tuple_key_iff j k = elim (Bool-cases (tuple_eq j k)) [
    | inl t ↦
        ap (λ i. text_eq (tuple_key show_id i) (tuple_key show_id k)) (tuple_eq→eq j k t)
        ∙ text_eq_refl (tuple_key show_id k)
        ∙ sym t
    | inr f ↦ elim (Bool-cases (text_eq (tuple_key show_id j) (tuple_key show_id k))) [
      | inl t ↦
          let same : j ≡ k =
            tuple_key-eq j k ((text_eq_iff (tuple_key show_id j) (tuple_key show_id k)).0 t) in
          let both : tuple_eq j k ≡ true = ap (λ i. tuple_eq i k) same ∙ tuple_eq_refl k in cc
      | inr u ↦ u ∙ sym f
    ]
  ]
