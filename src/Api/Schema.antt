-- ===== src/Api/Schema.antt =====
-- apps/api/prisma/schema.prisma: the rows of the tables, and the database. An id is compared and
-- ordered only, and is a number here; `createdAt` and `updatedAt` stand where the code reads them.
use campus_internship.Prelude.{ℕ, Bool, Option, List, Text}
use campus_internship.Shared.Enums.{Role, Semester, ProfileStatus, StageStatus, FileType, Promotion}
use campus_internship.Shared.Calendar.{Date}
use campus_internship.Shared.SchoolYear.{SchoolYear}
use campus_internship.Api.Json.{Json}

abbrev pub Uuid : Type 0
Uuid = ℕ

pub record User : Type 0 where
  pub id : Uuid
  pub email : Text
  pub password_hash : Text
  pub first_name : Text
  pub last_name : Text
  pub roles : List Role

pub record RefreshToken : Type 0 where
  pub id : Uuid
  pub token_hash : Text
  pub expires_at : Date
  pub user_id : Uuid

pub record PasswordResetToken : Type 0 where
  pub id : Uuid
  pub token_hash : Text
  pub expires_at : Date
  pub user_id : Uuid

pub record StudentProfile : Type 0 where
  pub id : Uuid
  pub user_id : Uuid
  pub phone : Option Text
  pub personal_email : Option Text
  pub promotion : Option Promotion
  pub profile_status : ProfileStatus
  pub profile_year : Option SchoolYear
  pub refusal_reason : Option Text
  pub updated_at : Date

pub record ReferentProfile : Type 0 where
  pub id : Uuid
  pub user_id : Uuid
  pub archived : Bool

pub record ReferentAssignment : Type 0 where
  pub school_year : SchoolYear
  pub semester : Semester
  pub mandatory : Bool
  pub referent_id : Uuid
  pub student_id : Uuid

pub record FileObject : Type 0 where
  pub id : Uuid
  pub file_type : FileType
  pub bucket_key : Text
  pub mime_type : Text
  pub size_bytes : ℕ
  pub expires_at : Option Date
  pub uploaded_at : Date
  pub student_profile_id : Uuid

-- what the forms give of an organism, and its row
pub record OrganismInput : Type 0 where
  pub name : Text
  pub structure_type : Text
  pub city : Text
  pub postal_code : Text
  pub street : Text

pub record HostOrganism : Type 0 where
  pub id : Uuid
  pub input : OrganismInput
  pub open input use *

-- what the forms give of a tutor, and its row
pub record TutorInput : Type 0 where
  pub first_name : Text
  pub last_name : Text
  pub email : Text
  pub job_title : Text
  pub phone : Option Text
  pub accepts_phone_contact : Bool

pub record Tutor : Type 0 where
  pub id : Uuid
  pub input : TutorInput
  pub open input use *
  pub organism_id : Uuid

pub record Stage : Type 0 where
  pub id : Uuid
  pub status : StageStatus
  pub school_year : SchoolYear
  pub semester : Semester
  pub mandatory : Bool
  pub service : Option Text
  pub project_type : Option Text
  pub motivation : Option Text
  pub refusal_reason : Option Text
  pub submitted_at : Option Date
  pub student_id : Uuid
  pub organism_id : Option Uuid
  pub tutor_id : Option Uuid
  pub snapshot : Option Json
  pub snapshot_version : Option ℕ
  pub decided_at : Option Date
  pub parent_stage_id : Option Uuid
  pub version : ℕ
  pub created_at : Date

pub record StagePeriod : Type 0 where
  pub id : Uuid
  pub stage_id : Uuid
  pub start_date : Date
  pub end_date : Date

pub record Db : Type 0 where
  pub users : List User
  pub refresh_tokens : List RefreshToken
  pub reset_tokens : List PasswordResetToken
  pub profiles : List StudentProfile
  pub referents : List ReferentProfile
  pub assignments : List ReferentAssignment
  pub files : List FileObject
  pub organisms : List HostOrganism
  pub tutors : List Tutor
  pub stages : List Stage
  pub periods : List StagePeriod
