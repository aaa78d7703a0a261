-- ===== src/Shared/SchoolYear/Decimal.antt =====
-- Numbers printed in decimal by a template literal, and read back by `Number`.
use campus_internship.Prelude.{
  ℕ, zero, suc, ◌+◌, ◌-◌, ◌*◌, ◌/◌, ◌%◌, ◌<◌, ◌≤◌, ◌≡◌, Bool, true, ◌&&◌, Option, none, some, [],
  ◌∷◌, if◌then◌else◌, Text, ltb, leb, arith, All, Bool-cases, inl, inr,
}

abbrev pub is_digit : ℕ → Bool
is_digit c = leb 48 c && leb c 57

-- the digits of a number before those of `acc`; the first argument is fuel
show_from : ℕ → ℕ → Text → Text
show_from zero n acc = acc
show_from (suc f) n acc =
    let more = show_from f (n / 10) ((48 + n % 10) ∷ acc) in
    if ltb n 10 then (48 + n) ∷ acc else more

unfoldable pub show : ℕ → Text
unfolding show_from
show n = show_from (n + 1) n []

-- `Number` of a text of decimal digits; `none` stands for `NaN` and for the other forms that
-- `Number` reads, which no school year has.
number_from : ℕ → Text → Option ℕ
number_from acc [] = some acc
number_from acc (c ∷ s) =
    let rest = number_from (acc * 10 + (c - 48)) s in if is_digit c then rest else none

unfoldable pub number : Text → Option ℕ
unfolding number_from
number s = number_from 0 s

number_from-show_from :
    (f n : ℕ) (acc : Text) → n < f → number_from 0 (show_from f n acc) ≡ number_from n acc
unfolding show_from number_from
number_from-show_from zero n acc h = elim h [ ]
number_from-show_from (suc f) n acc h =
    ground (arith, number_from-show_from f (n / 10) ((48 + n % 10) ∷ acc))

-- What is printed reads back as itself.
pub number-show : (n : ℕ) → number (show n) ≡ some n
unfolding number show
number-show n = number_from-show_from (n + 1) n [] (omega arith)

show_from-All_digits :
    (f n : ℕ) (acc : Text)
    → All (λ c. is_digit c ≡ true) acc
    → All (λ c. is_digit c ≡ true) (show_from f n acc)
unfolding show_from
show_from-All_digits zero n acc h = h
show_from-All_digits (suc f) n acc h = elim (Bool-cases (ltb n 10)) [
  | inl last ↦ rw last (ground arith, h)
  | inr more ↦ rw more (show_from-All_digits f (n / 10) ((48 + n % 10) ∷ acc) (ground arith, h))
]

pub show-All_digits : (n : ℕ) → All (λ c. is_digit c ≡ true) (show n)
unfolding show
show-All_digits n = show_from-All_digits (n + 1) n [] tt

show_from_step :
    (f n : ℕ) (acc : Text)
    → 10 ≤ n
    → show_from (suc f) n acc ≡ show_from f (n / 10) ((48 + n % 10) ∷ acc)
unfolding show_from
show_from_step f n acc h = ground arith

show_from_last : (f n : ℕ) (acc : Text) → n < 10 → show_from (suc f) n acc ≡ (48 + n) ∷ acc
unfolding show_from
show_from_last f n acc h = ground arith

show_from_four :
    (f n : ℕ)
    → 1000 ≤ n
    → n < 10000
    → show_from (suc (suc (suc (suc f)))) n []
      ≡ (48 + n / 1000) ∷ (48 + n / 100 % 10) ∷ (48 + n / 10 % 10) ∷ (48 + n % 10) ∷ []
show_from_four f n h k = ground (
  arith,
  show_from_step (suc (suc (suc f))) n [],
  show_from_step (suc (suc f)) (n / 10) ((48 + n % 10) ∷ []),
  show_from_step (suc f) (n / 10 / 10) ((48 + n / 10 % 10) ∷ (48 + n % 10) ∷ []),
  show_from_last f (n / 10 / 10 / 10)
      ((48 + n / 10 / 10 % 10) ∷ (48 + n / 10 % 10) ∷ (48 + n % 10) ∷ []),
)

-- A year of four digits is printed as its four digits.
pub show_four :
    (n : ℕ)
    → 1000 ≤ n
    → n < 10000
    → show n ≡ (48 + n / 1000) ∷ (48 + n / 100 % 10) ∷ (48 + n / 10 % 10) ∷ (48 + n % 10) ∷ []
unfolding show
show_four n h k =
    let e : n + 1 ≡ suc (suc (suc (suc (n - 3)))) = omega arith in
    rw e (show_from_four (n - 3) n h k)
