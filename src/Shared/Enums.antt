-- ===== src/Shared/Enums.antt =====
-- packages/shared/src/enums.
use campus_internship.Prelude.{Bool, true, false}

pub data Role : Type 0 where
  student admin referent : Role

pub data Semester : Type 0 where
  s1 s2 : Semester

pub data ProfileStatus : Type 0 where
  incomplete pending_validation valid expired : ProfileStatus

pub data StageStatus : Type 0 where
  draft pending validated refused : StageStatus

pub data FileType : Type 0 where
  id_photo insurance_certificate : FileType

pub data Promotion : Type 0 where
  l2 l3 : Promotion

-- `blocksNavigation`
unfoldable pub blocks_navigation : ProfileStatus → Bool
blocks_navigation incomplete = true
blocks_navigation expired = true
blocks_navigation _ = false

-- The comparisons `===` on the enumerations.
abbrev pub role_eq : Role → Role → Bool
role_eq student student = true
role_eq admin admin = true
role_eq referent referent = true
role_eq _ _ = false

abbrev pub semester_eq : Semester → Semester → Bool
semester_eq s1 s1 = true
semester_eq s2 s2 = true
semester_eq _ _ = false

abbrev pub profile_status_eq : ProfileStatus → ProfileStatus → Bool
profile_status_eq incomplete incomplete = true
profile_status_eq pending_validation pending_validation = true
profile_status_eq valid valid = true
profile_status_eq expired expired = true
profile_status_eq _ _ = false

abbrev pub status_eq : StageStatus → StageStatus → Bool
status_eq draft draft = true
status_eq pending pending = true
status_eq validated validated = true
status_eq refused refused = true
status_eq _ _ = false

abbrev pub file_type_eq : FileType → FileType → Bool
file_type_eq id_photo id_photo = true
file_type_eq insurance_certificate insurance_certificate = true
file_type_eq _ _ = false

abbrev pub promotion_eq : Promotion → Promotion → Bool
promotion_eq l2 l2 = true
promotion_eq l3 l3 = true
promotion_eq _ _ = false

abbrev pub bool_eq : Bool → Bool → Bool
bool_eq true true = true
bool_eq false false = true
bool_eq _ _ = false
