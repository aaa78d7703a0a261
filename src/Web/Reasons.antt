-- ===== src/Web/Reasons.antt =====
-- features/admin/review-stages/refuse/refusal-reason.ts and review-certificates/reject-reason.ts: the
-- reason that an admin's dialog builds from ticked boxes and free text.
use campus_internship.Prelude.{
  ◌≡◌, refl, sym, ◌∙◌, Bool, true, false, not, ◌&&◌, ◌||◌, List, [], ◌∷◌, ◌++◌, map, any, arith,
  if◌then◌else◌, Bool-cases, inl, inr, Text, text, trim, is_space,
}
use campus_internship.Prelude.Trim.{has_ink, no_units-trim, any-append}
use campus_internship.Shared.Forms.{reason_schema}
use campus_internship.Web.Wizard.{is_some}

-- `lines.join("\n")`
unfoldable pub join_lines : List Text → Text
join_lines [] = []
join_lines (l ∷ ls) = let rest = join_lines ls in elim ls [ [] ↦ l | m ∷ ms ↦ l ++ 10 ∷ rest ]

abbrev bullet : Text → Text
bullet reason = text "- " ++ reason

abbrev pub precision : Text → Text
precision trimmed = text "Autre précision : " ++ trimmed

abbrev pub is_nonempty {ℓ} : {A : Type ℓ} → List A → Bool
is_nonempty [] = false
is_nonempty (x ∷ xs) = true

-- `buildRefusalReason`
unfoldable pub build_refusal_reason : List Text → Text → Text
build_refusal_reason checked_reasons free_text =
    let lines = map bullet checked_reasons in
    let trimmed = trim free_text in
    join_lines (if is_nonempty trimmed then lines ++ precision trimmed ∷ [] else lines)

-- `buildRejectReason`
unfoldable pub build_reject_reason : List Text → Text → Text
build_reject_reason checked_reasons free_text =
    let lines = map bullet checked_reasons in
    let trimmed = trim free_text in
    join_lines (if is_nonempty trimmed then lines ++ precision trimmed ∷ [] else lines)

-- `isRefusalReasonComplete`
unfoldable pub is_refusal_reason_complete : List Text → Text → Bool
is_refusal_reason_complete checked_reasons free_text =
    is_nonempty checked_reasons || is_nonempty (trim free_text)

-- `refuserDisabled` of CertificateQueuePage.tsx
unfoldable pub refuser_disabled : List Text → Text → Bool → Bool
refuser_disabled checked_reasons free_text action_pending =
    (not (is_nonempty checked_reasons) && not (is_nonempty (trim free_text))) || action_pending

line_feed : is_space 10 ≡ true
unfolding is_space
line_feed = refl

has_ink-bullet : (reason : Text) → has_ink (bullet reason) ≡ true
unfolding is_space
has_ink-bullet reason = refl

has_ink-precision : (trimmed : Text) → has_ink (precision trimmed) ≡ true
unfolding is_space
has_ink-precision trimmed = refl

-- a reason has ink where a line has
has_ink-join_lines : (ls : List Text) → has_ink (join_lines ls) ≡ any has_ink ls
unfolding join_lines
has_ink-join_lines [] = refl
has_ink-join_lines (l ∷ []) = ground arith
has_ink-join_lines (l ∷ m ∷ ms) =
    any-append (λ c. not (is_space c)) l (10 ∷ join_lines (m ∷ ms))
    ∙ rw (line_feed, has_ink-join_lines (m ∷ ms)) refl

any-bullets :
    (checked_reasons : List Text)
    → any has_ink (map bullet checked_reasons) ≡ is_nonempty checked_reasons
any-bullets [] = refl
any-bullets (r ∷ rs) = rw (has_ink-bullet r) refl

reason_schema-ink : (reason : Text) → is_some (reason_schema reason) ≡ has_ink reason
unfolding reason_schema
reason_schema-ink reason = elim (Bool-cases (has_ink reason)) [
  | inl t ↦ rw (no_units-trim reason, t)
  | inr f ↦ rw (no_units-trim reason, f)
]

built_reason :
    (checked_reasons : List Text) (free_text : Text)
    → is_some (reason_schema (build_refusal_reason checked_reasons free_text))
      ≡ is_refusal_reason_complete checked_reasons free_text
unfolding build_refusal_reason is_refusal_reason_complete
built_reason checked_reasons free_text =
    reason_schema-ink (build_refusal_reason checked_reasons free_text)
    ∙ elim (Bool-cases (is_nonempty (trim free_text))) [
      | inl t ↦ rw t (
          has_ink-join_lines (map bullet checked_reasons ++ precision (trim free_text) ∷ [])
          ∙ any-append has_ink (map bullet checked_reasons) (precision (trim free_text) ∷ [])
          ∙ ground (arith, any-bullets checked_reasons, has_ink-precision (trim free_text)))
      | inr f ↦ rw f (
          has_ink-join_lines (map bullet checked_reasons)
          ∙ any-bullets checked_reasons
          ∙ ground arith)
    ]

-- In the dialog that refuses a request, and in the page that rejects a certificate while no action is
-- under way, the button "Refuser" is enabled exactly where the API accepts the reason that is built.
pub reason_schema-build_reason :
    (checked_reasons : List Text) (free_text : Text)
    → (is_refusal_reason_complete checked_reasons free_text
        ≡ is_some (reason_schema (build_refusal_reason checked_reasons free_text)))
      × (not (refuser_disabled checked_reasons free_text false)
          ≡ is_some (reason_schema (build_reject_reason checked_reasons free_text)))
unfolding build_reject_reason build_refusal_reason refuser_disabled is_refusal_reason_complete
reason_schema-build_reason checked_reasons free_text = (
  sym (built_reason checked_reasons free_text),
  ground arith ∙ sym (built_reason checked_reasons free_text),
)
