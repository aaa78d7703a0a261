-- ===== src/Api/Json.antt =====
-- JSON documents. A string that is an id is a constructor of its own, as ids are in the model.
use text.Mathlib.Text.{◌==◌ as str_eq}
use mathlib.Core.Path.{subst}
use campus_internship.Prelude.{ℕ, ◌≡◌, refl, String, Bool, Option, none, some, Text, if◌then◌else◌}

mutual
  pub data Json : Type 0 where
    null : Json
    bool : Bool → Json
    id : ℕ → Json
    num : ℕ → Json
    str : Text → Json
    arr : Items → Json
    obj : Members → Json

  pub data Items : Type 0 where
    nil : Items
    cons : Json → Items → Items

  pub data Members : Type 0 where
    end : Members
    member : String → Json → Members → Members

-- the value of a key; `none` is `undefined`
unfoldable pub get : String → Members → Option Json
get key end = none
get key (member k v ms) = let rest = get key ms in if str_eq k key then some v else rest

infixl 5 ◌>>=◌
abbrev pub ◌>>=◌ {ℓ κ} : {A : Type ℓ} {B : Type κ} → Option A → (A → Option B) → Option B
none >>= f = none
some a >>= f = f a

-- the schemas `z.string()`, `z.boolean()`, `z.object()` and `z.string().nullable()`
abbrev pub as_str : Json → Option Text
as_str (str s) = some s
as_str _ = none

abbrev pub as_id : Json → Option ℕ
as_id (id n) = some n
as_id _ = none

abbrev pub as_bool : Json → Option Bool
as_bool (bool b) = some b
as_bool _ = none

abbrev pub as_obj : Json → Option Members
as_obj (obj ms) = some ms
as_obj _ = none

abbrev pub as_arr : Json → Option Items
as_arr (arr js) = some js
as_arr _ = none

abbrev pub as_nullable_str : Json → Option (Option Text)
as_nullable_str null = some none
as_nullable_str (str s) = some (some s)
as_nullable_str _ = none

abbrev pub nullable_str : Option Text → Json
nullable_str none = null
nullable_str (some s) = str s

-- what holds of the value, if there is one
pub record Ensures {ℓ κ} {A : Type ℓ} (P : A → Type κ) (o : Option A) : Type (ℓ ⊔ κ) where
  pub at : (a : A) → o ≡ some a → P a

module _ {ℓ κ} {A B : Type ℓ} {P : B → Type κ} where
  pub Ensures-bind :
      (m : Option A) (f : A → Option B)
      → ((a : A) → m ≡ some a → Ensures P (f a))
      → Ensures P (m >>= f)
  Ensures-bind none f k = record { at = λ b e. cc }
  Ensures-bind (some a) f k = k a refl

abbrev OfSome {ℓ κ} : {A : Type ℓ} → (A → Type κ) → Option A → Type κ
OfSome P none = Unit
OfSome P (some a) = P a

pub Ensures-some {ℓ κ} : {B : Type ℓ} {P : B → Type κ} (b : B) → P b → Ensures P (some b)
Ensures-some {P} b h = record { at = λ c e. subst (λ o. OfSome P o) e h }
