-- ===== src/Api/Http.antt =====
-- What a request handler throws: NestJS's HTTP exceptions, the errors of the database client that
-- the global filter translates, and bare JavaScript errors.
use campus_internship.Prelude.{String, Option, List}

-- `STAGE_CONFLICT_CODES`
pub data ConflictCode : Type 0 where
  version_conflict not_draft row_frozen not_pending no_referent : ConflictCode

-- the error codes of Prisma that the code relies on
pub data PrismaCode : Type 0 where
  p2002 p2003 p2025 : PrismaCode

pub data Error : Type 0 where
  not_found : String → Error
  conflict : Option ConflictCode → String → Error
  bad_request : List String → Error
  unauthorized : String → Error
  internal : String → Error
  prisma : PrismaCode → Error
  js_error : String → Error

pub data Result {ℓ} (A : Type ℓ) : Type ℓ where
  ok : A → Result A
  err : Error → Result A
