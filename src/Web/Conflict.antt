-- ===== src/Web/Conflict.antt =====
-- features/stages/edit/save/stage-conflict.ts, and the body of the API's 409 that it reads.
use campus_internship.Prelude.{
  ℕ, ◌≡◌, ◌==◌, refl, Option, none, some, if◌then◌else◌, Text, text, text_eq,
}
use mathlib.Core.Option
use campus_internship.Api.Http.{
  ConflictCode, version_conflict, not_draft, row_frozen, not_pending, no_referent,
}
use campus_internship.Api.Json.{Json, num, str, obj, end, member, get, as_str, as_obj, ◌>>=◌}

-- `STAGE_CONFLICT_CODES`
abbrev pub code_text : ConflictCode → Text
code_text version_conflict = text "STAGE_VERSION_CONFLICT"
code_text row_frozen = text "STAGE_ROW_FROZEN"
code_text not_draft = text "STAGE_NOT_DRAFT"
code_text not_pending = text "STAGE_NOT_PENDING"
code_text no_referent = text "STAGE_NO_REFERENT"

-- The body of the answer: that of `stageConflict` where there is a code, and that of a plain
-- `ConflictException` otherwise.
unfoldable pub conflict_body : Option ConflictCode → Text → Json
conflict_body (some code) message = obj (
    member "statusCode" (num 409) (
      member "error" (str (text "Conflict"))
        (member "message" (str message) (member "code" (str (code_text code)) end))))
conflict_body none message = obj (
    member "message" (str message)
      (member "error" (str (text "Conflict")) (member "statusCode" (num 409) end)))

-- `KNOWN_CODES`
unfoldable pub known_code : Text → Option ConflictCode
known_code code =
    if text_eq code (text "STAGE_VERSION_CONFLICT")
    then some version_conflict
    else if text_eq code (text "STAGE_ROW_FROZEN")
    then some row_frozen
    else if text_eq code (text "STAGE_NOT_DRAFT")
    then some not_draft
    else if text_eq code (text "STAGE_NOT_PENDING")
    then some not_pending
    else if text_eq code (text "STAGE_NO_REFERENT")
    then some no_referent
    else none

-- an `ApiError`
pub record ApiError : Type 0 where
  pub status : ℕ
  pub message : Text

-- `parse` is `JSON.parse`, which throws on a text that is no JSON
module _ (parse : Text → Option Json) where
  -- `readStageConflict`; the error is none where it is no `ApiError`
  unfoldable pub read_stage_conflict : Option ApiError → Option (ConflictCode × Text)
  read_stage_conflict error = do
    e ← error
    body ← (if e.status == 409 then parse e.message else none)
    members ← as_obj body
    code_value ← get "code" members
    code ← as_str code_value
    known ← known_code code
    message_value ← get "message" members
    message ← as_str message_value
    some (known, message)

  -- What the web application reads from a 409 of the API, whose body is JSON for the answer of the
  -- service, is the code and the message that the service threw, and nothing for a conflict without
  -- a code.
  pub read_stage_conflict-conflict_body :
      (code : Option ConflictCode) (message body : Text)
      → parse body ≡ some (conflict_body code message)
      → read_stage_conflict (some (record { status = 409; message = body }))
        ≡ Option.map (λ k. (k, message)) code
  unfolding read_stage_conflict conflict_body known_code get text_eq
  read_stage_conflict-conflict_body none message body e = rw e refl
  read_stage_conflict-conflict_body (some version_conflict) message body e = rw e refl
  read_stage_conflict-conflict_body (some row_frozen) message body e = rw e refl
  read_stage_conflict-conflict_body (some not_draft) message body e = rw e refl
  read_stage_conflict-conflict_body (some not_pending) message body e = rw e refl
  read_stage_conflict-conflict_body (some no_referent) message body e = rw e refl
