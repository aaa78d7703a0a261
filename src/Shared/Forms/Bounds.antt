-- ===== src/Shared/Forms/Bounds.antt =====
-- The lengths of a password in UTF-16 units and in UTF-8 bytes.
use campus_internship.Prelude.{
  ℕ, ◌+◌, ◌-◌, ◌*◌, ◌/◌, ◌%◌, ◌≤◌, ◌≡◌, ◌↔◌, refl, true, ◌&&◌, ◌||◌, List, [], ◌∷◌, ◌++◌, length,
  length-append, if◌then◌else◌, ltb, leb, arith, Bool-cases, inl, inr, Text,
}
use campus_internship.Shared.Forms.{is_high, is_low, unit_bytes, utf8_length, password_schema}

unit_bytes_bounds : (c : ℕ) → (1 ≤ unit_bytes c) × (unit_bytes c ≤ 3)
unit_bytes_bounds c = ground arith

-- a unit takes between one and three bytes
utf8_length_bounds : (s : Text) → (length s ≤ utf8_length s) × (utf8_length s ≤ 3 * length s)
unfolding utf8_length
utf8_length_bounds [] = ground arith
utf8_length_bounds (c ∷ []) = ground (arith, unit_bytes_bounds c)
utf8_length_bounds (c ∷ d ∷ s) = elim (Bool-cases (is_high c && is_low d)) [
  | inl t ↦ rw t (ground (arith, utf8_length_bounds s))
  | inr f ↦ rw f (ground (arith, unit_bytes_bounds c, utf8_length_bounds (d ∷ s)))
]

-- The UTF-8 encoding of the characters of a text, bytes in order; half a pair becomes U+FFFD.
abbrev unit_utf8 : ℕ → List ℕ
unit_utf8 c =
    if ltb c 0x80
    then c ∷ []
    else if ltb c 0x800
    then (0xc0 + c / 64) ∷ (0x80 + c % 64) ∷ []
    else if is_high c || is_low c
    then 0xef ∷ 0xbf ∷ 0xbd ∷ []
    else (0xe0 + c / 4096) ∷ (0x80 + c / 64 % 64) ∷ (0x80 + c % 64) ∷ []

-- the character of a pair of units, from U+10000 on
abbrev code_point : ℕ → ℕ → ℕ
code_point c d = 0x10000 + (c - 0xd800) * 1024 + (d - 0xdc00)

abbrev pair_utf8 : ℕ → List ℕ
pair_utf8 n =
    (0xf0 + n / 262144) ∷ (0x80 + n / 4096 % 64) ∷ (0x80 + n / 64 % 64) ∷ (0x80 + n % 64) ∷ []

abbrev pub utf8 : Text → List ℕ
utf8 [] = []
utf8 (c ∷ []) = unit_utf8 c
utf8 (c ∷ d ∷ s) =
    let paired = pair_utf8 (code_point c d) ++ utf8 s in
    let single = unit_utf8 c ++ utf8 (d ∷ s) in if is_high c && is_low d then paired else single

length-unit_utf8 : (c : ℕ) → length (unit_utf8 c) ≡ unit_bytes c
length-unit_utf8 c = ground arith

-- the number that the schema compares is that of the bytes
length-utf8 : (s : Text) → length (utf8 s) ≡ utf8_length s
unfolding utf8_length
length-utf8 [] = refl
length-utf8 (c ∷ []) = length-unit_utf8 c
length-utf8 (c ∷ d ∷ s) = elim (Bool-cases (is_high c && is_low d)) [
  | inl t ↦ rw t (ground (arith, length-utf8 s))
  | inr f ↦ rw f (
      ground (
        arith,
        length-append (unit_utf8 c) (utf8 (d ∷ s)),
        length-unit_utf8 c,
        length-utf8 (d ∷ s),
      ))
]

both_iff : (n m : ℕ) → (leb 18 n && leb m 72 ≡ true) ↔ ((18 ≤ n) × (m ≤ 72))
both_iff n m = ground arith

-- A password is accepted exactly where it has 18 UTF-16 units or more and its UTF-8 encoding, which is
-- what bcrypt reads, has no more than 72 bytes.
pub password_schema-length :
    (value : Text)
    → (password_schema value ≡ true) ↔ ((18 ≤ length value) × (length (utf8 value) ≤ 72))
unfolding password_schema
password_schema-length value = rw (length-utf8 value) (both_iff (length value) (utf8_length value))

-- A password of 18 to 24 units is accepted, whatever its characters.
pub password_schema-short :
    (value : Text) → 18 ≤ length value → length value ≤ 24 → password_schema value ≡ true
unfolding password_schema
password_schema-short value long short = ground (arith, utf8_length_bounds value)
