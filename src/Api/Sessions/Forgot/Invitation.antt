-- ===== src/Api/Sessions/Forgot/Invitation.antt =====
-- The link in the email of a forgotten password.
use mathlib.Core.List.{append_assoc}
use campus_internship.Prelude.{ℕ, ◌≡◌, sym, ap, ◌∙◌, ◌∷◌, ◌++◌, Text, text}
use campus_internship.Api.Schema.{User}
use campus_internship.Api.World.{Env}
use campus_internship.Api.Sessions.Forgot.{paragraph, compose_reset_email, reset_email}
use campus_internship.Api.Prisma.{Client}
use campus_internship.Api.Sessions.{Crypto}

-- a text in which the link with a token ends a line
abbrev pub Carries : Text → Text → Type 0
Carries token body =
    (before : Text) × ((rest : Text) × (body
        ≡ before ++ (text "/reset-password?token=" ++ (token ++ 10 ∷ rest))))

abbrev link_line : Text → Text → Text
link_line token rest = text "/reset-password?token=" ++ (token ++ 10 ∷ rest)

Carries-cons : (token : Text) (u : ℕ) (s : Text) → Carries token s → Carries token (u ∷ s)
Carries-cons token u s (before, (rest, e)) = (u ∷ before, (rest, ap (λ t. u ∷ t) e))

Carries-append : (token p s : Text) → Carries token s → Carries token (p ++ s)
Carries-append token p s (before, (rest, e)) =
    (p ++ before, (rest, ap (λ t. p ++ t) e ∙ sym (append_assoc p before (link_line token rest))))

Carries-paragraph : (token p s : Text) → Carries token s → Carries token (paragraph p s)
unfolding paragraph
Carries-paragraph token p s h =
    Carries-append token p (10 ∷ 10 ∷ s)
      (Carries-cons token 10 (10 ∷ s) (Carries-cons token 10 s h))

Carries-url :
    (token url rest : Text)
    → Carries token (paragraph (url ++ (text "/reset-password?token=" ++ token)) rest)
unfolding paragraph
Carries-url token url rest = (
  url,
  (
    10 ∷ rest,
    append_assoc url (text "/reset-password?token=" ++ token) (10 ∷ 10 ∷ rest)
        ∙ ap (λ t. url ++ t) (append_assoc (text "/reset-password?token=") token (10 ∷ 10 ∷ rest)),
  ),
)

pub reset_email-Carries :
    (c : Client) (env : Env) (crypto : Crypto) (web_app_url : Text) (user : User)
    → Carries crypto.random_token (reset_email c env crypto web_app_url user).body
unfolding compose_reset_email
reset_email-Carries c env crypto web_app_url user = search (Carries-paragraph, Carries-url) depth 8
