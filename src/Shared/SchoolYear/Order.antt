-- ===== src/Shared/SchoolYear/Order.antt =====
-- School years of four digits are ordered as text as their start years are as numbers.
use campus_internship.Prelude.{
  ℕ, ◌+◌, ◌*◌, ◌/◌, ◌%◌, ◌<◌, ◌≤◌, ◌≡◌, ◌∷◌, ◌++◌, Text, ltb, text_lt, arith, [], refl, false,
}
use campus_internship.Shared.SchoolYear.{school_year_of}
use campus_internship.Shared.SchoolYear.Decimal.{show, show_four}

abbrev four : ℕ → ℕ → ℕ → ℕ → Text
four a b c d = (48 + a) ∷ (48 + b) ∷ (48 + c) ∷ (48 + d) ∷ []

text_lt_irrefl : (s : Text) → text_lt s s ≡ false
unfolding text_lt
text_lt_irrefl [] = refl
text_lt_irrefl (c ∷ s) = ground (arith, text_lt_irrefl s)

text_lt-four :
    (a b c d e f g h : ℕ) (s t : Text)
    → b < 10
    → c < 10
    → d < 10
    → f < 10
    → g < 10
    → h < 10
    → (a * 1000 + b * 100 + c * 10 + d ≡ e * 1000 + f * 100 + g * 10 + h → text_lt s t ≡ false)
    → text_lt (four a b c d ++ s) (four e f g h ++ t)
      ≡ ltb (a * 1000 + b * 100 + c * 10 + d) (e * 1000 + f * 100 + g * 10 + h)
unfolding text_lt
text_lt-four a b c d e f g h s t hb hc hd hf hg hh same = ground arith

-- Two school years whose years all have four digits are in the order of text exactly when the years
-- in which they start are in the order of numbers.
pub text_lt-school_year_of :
    (y z : ℕ)
    → 1000 ≤ y
    → y < 9999
    → 1000 ≤ z
    → z < 9999
    → text_lt (school_year_of y) (school_year_of z) ≡ ltb y z
unfolding school_year_of
text_lt-school_year_of y z h k l m =
    rw (show_four y h (omega arith), show_four z l (omega arith))
      (rw (fold y, fold z) at
        (text_lt-four (y / 1000) (y / 100 % 10) (y / 10 % 10) (y % 10) (z / 1000) (z / 100 % 10)
          (z / 10 % 10) (z % 10) (b'-' ∷ show (y + 1)) (b'-' ∷ show (z + 1)) (omega arith)
          (omega arith) (omega arith) (omega arith) (omega arith) (omega arith)
          (λ e. let q : y ≡ z = omega arith in rw q (text_lt_irrefl (b'-' ∷ show (z + 1))))))
  where
    fold : (n : ℕ) → n / 1000 * 1000 + n / 100 % 10 * 100 + n / 10 % 10 * 10 + n % 10 ≡ n
    fold n = omega arith
