-- ===== src/Api/Guards.antt =====
-- common/guards, common/filters/prisma-exception.filter.ts and modules/auth/strategies/jwt.strategy.ts.
use campus_internship.Prelude.{
  String, Bool, true, false, ◌||◌, any, Option, none, some, List, [], ◌∷◌, Text,
}
use campus_internship.Shared.Enums.{Role, role_eq}
use campus_internship.Api.Http.{
  Error, conflict, not_found, bad_request, PrismaCode, p2002, p2003, p2025,
}
use campus_internship.Api.Schema.{Uuid, User}

-- `canActivate` of the guard of roles: the roles that the route asks for, and those of the user
unfoldable pub can_activate : Option (List Role) → Option (List Role) → Bool
can_activate none user = true
can_activate (some []) user = true
can_activate (some (r ∷ rs)) none = false
can_activate (some (r ∷ rs)) (some roles) = any (λ role. any (role_eq role) (r ∷ rs)) roles

-- `canActivate` of the guard of tokens; `authenticated` is what the strategy of the library says
unfoldable pub jwt_can_activate : Bool → Bool → Bool
jwt_can_activate is_public authenticated = is_public || authenticated

-- `JwtPayload`
pub record JwtPayload : Type 0 where
  pub sub : Uuid
  pub email : Text
  pub first_name : Text
  pub last_name : Text
  pub roles : List Role

-- `AuthUser`
pub record AuthUser : Type 0 where
  pub id : Uuid
  pub email : Text
  pub first_name : Text
  pub last_name : Text
  pub roles : List Role

-- the payload that `issueTokens` signs
abbrev pub payload_of : User → JwtPayload
payload_of user = record {
  sub = user.id;
  email = user.email;
  first_name = user.first_name;
  last_name = user.last_name;
  roles = user.roles;
}

-- `toAuthUser`
abbrev pub to_auth_user : User → AuthUser
to_auth_user user = record {
  id = user.id;
  email = user.email;
  first_name = user.first_name;
  last_name = user.last_name;
  roles = user.roles;
}

-- `validate` of the strategy
unfoldable pub validate_payload : JwtPayload → AuthUser
validate_payload payload = record {
  id = payload.sub;
  email = payload.email;
  first_name = payload.first_name;
  last_name = payload.last_name;
  roles = payload.roles;
}

-- `conflictMessage`: whether the target of the constraint has the email
abbrev pub conflict_message : Bool → String
conflict_message true = "Un compte existe déjà avec cette adresse email"
conflict_message false = "Cette ressource existe déjà"

-- `translate`, of the codes that the services rely on
unfoldable pub translate : PrismaCode → Bool → Error
translate p2002 on_email = conflict none (conflict_message on_email)
translate p2025 on_email = not_found "Ressource introuvable"
translate p2003 on_email = bad_request ("Référence invalide" ∷ [])
