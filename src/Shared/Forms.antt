-- ===== src/Shared/Forms.antt =====
-- schemas/refuse-stage.schema.ts, reject-profile.schema.ts and password.schema.ts.
pub mod Bounds
use campus_internship.Prelude.{
  ℕ, ◌+◌, ◌*◌, ◌≤◌, ◌<◌, ◌≡◌, ◌↔◌, refl, Bool, true, false, ◌&&◌, Option, none, some, List, [], ◌∷◌,
  length, ltb, leb, arith, if◌then◌else◌, Bool-cases, inl, inr, Text, trim,
}
use campus_internship.Prelude.Trim.{no_units}

-- `z.string().trim().min(1)`: the reason of a refusal or of a rejection
unfoldable pub reason_schema : Text → Option Text
reason_schema reason = if no_units (trim reason) then none else some (trim reason)

-- a UTF-16 unit that opens or closes a pair
abbrev pub is_high : ℕ → Bool
is_high c = leb 0xd800 c && ltb c 0xdc00

abbrev pub is_low : ℕ → Bool
is_low c = leb 0xdc00 c && ltb c 0xe000

-- the bytes of a unit that is not paired; half a pair is replaced by U+FFFD
abbrev pub unit_bytes : ℕ → ℕ
unit_bytes c = if ltb c 0x80 then 1 else if ltb c 0x800 then 2 else 3

-- `new TextEncoder().encode(value).length`
unfoldable pub utf8_length : Text → ℕ
utf8_length [] = 0
utf8_length (c ∷ []) = unit_bytes c
utf8_length (c ∷ d ∷ s) =
    let rest = utf8_length (d ∷ s) in
    let after = utf8_length s in if is_high c && is_low d then 4 + after else unit_bytes c + rest

-- `BCRYPT_MAX_INPUT_BYTES`
abbrev pub bcrypt_max_input_bytes : ℕ
bcrypt_max_input_bytes = 72

-- `passwordSchema`
unfoldable pub password_schema : Text → Bool
password_schema value = leb 18 (length value) && leb (utf8_length value) bcrypt_max_input_bytes
