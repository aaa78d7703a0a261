-- ===== src/Api/Mailer.antt =====
-- modules/mailer/mailer.service.ts and common/admin-email.util.ts. The provider is the parameter
-- `deliver` of the platform: whether it accepts the email.
use campus_internship.Prelude.{
  Option, none, some, List, [], ◌∷◌, ◌++◌, Bool, true, false, Text, text, if◌then◌else◌,
}
use campus_internship.Api.World.{Env, Email, M, World, pure, log, email_failed}

-- the three shapes of `cc`
pub data Cc : Type 0 where
  absent : Cc
  one : Text → Cc
  several : List Text → Cc

-- `normalizeCc`
unfoldable pub normalize_cc : Cc → List Text
normalize_cc absent = []
normalize_cc (one address) = address ∷ []
normalize_cc (several addresses) = addresses

-- `send`; false is the error that it throws
unfoldable pub send : Env → Email → World → Bool × World
send env email w =
    if env.deliver email then (true, record w { outbox = w.outbox ++ email ∷ [] }) else (false, w)

-- `sendSafely`
unfoldable pub send_safely : Env → Email → M (Unit {0})
unfolding send
send_safely env email w =
    let (sent, w') = send env email w in if sent then pure tt w' else log (email_failed email.to) w'

abbrev pub personal_cc : Option Text → Cc
personal_cc none = absent
personal_cc (some []) = absent
personal_cc (some address) = one address

-- `ADMIN_TITLE`
abbrev pub admin_title : Text
admin_title = text "responsable de stages L2 et L3 APA-S"

pub record ActingAdmin : Type 0 where
  pub first_name : Text
  pub last_name : Text

-- `adminDisplayName`
unfoldable pub admin_display_name : Env → ActingAdmin → Text
admin_display_name env admin = env.to_upper_case admin.last_name ++ (text " " ++ admin.first_name)

-- `join("\n\n")`
unfoldable pub join_paragraphs : List Text → Text
join_paragraphs [] = []
join_paragraphs (p ∷ []) = p
join_paragraphs (p ∷ q ∷ ps) = p ++ (10 ∷ 10 ∷ join_paragraphs (q ∷ ps))

-- `composeStudentEmail`
unfoldable pub compose_student_email : Text → Text → List Text → Text
unfolding join_paragraphs
compose_student_email first_name signature paragraphs = join_paragraphs (
    (text "Bonjour " ++ (first_name ++ text ","))
    ∷ (paragraphs ++ ((text "Cordialement," ++ (10 ∷ signature)) ∷ [])))
