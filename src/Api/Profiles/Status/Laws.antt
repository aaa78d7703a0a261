-- ===== src/Api/Profiles/Status/Laws.antt =====
-- How the status of a profile moves, and which certificate counts.
use campus_internship.Prelude.{
  ◌+◌, ◌≡◌, ◌≢◌, ◌↔◌, ◌⊎◌, ◌≤◌, refl, sym, ap, ◌∙◌, Bool, true, false, Option, none, some, List, [],
  ◌∷◌, arith, any, if◌then◌else◌,
}
use campus_internship.Shared.Enums.{
  ProfileStatus, incomplete, pending_validation, valid, expired, FileType, insurance_certificate,
  file_type_eq, Promotion,
}
use campus_internship.Shared.Calendar.{Date, utc_september}
use campus_internship.Shared.SchoolYear.{get_current_school_year, get_school_year_end, start_year}
use campus_internship.Shared.SchoolYear.Laws.{
  start_year_bounds, start_year_unique, get_school_year_end_late, start_year_late,
  utc_september_mono,
}
use campus_internship.Api.Schema.{FileObject}
use campus_internship.Api.Profiles.Status.{
  is_current, expiry_of, has_file_of_type, keep_first, next_status,
}

-- what the actions of a student may do to the status
abbrev pub StudentMove : ProfileStatus → ProfileStatus → Type 0
StudentMove old new = (new ≡ old) ⊎ ((new ≡ pending_validation) × (old ≢ pending_validation))

-- An action of a student leaves the status as it is, or moves it to pending validation: it never
-- makes a profile valid. It moves an incomplete or expired profile exactly when there is a promotion
-- and both files are current, and a valid one exactly when the promotion changes or a certificate is
-- uploaded again.
pub next_status_iff :
    (status : ProfileStatus) (promotion : Option Promotion)
    (photo certificate changed reuploaded : Bool)
    → let next = next_status status promotion photo certificate changed reuploaded in
      StudentMove status next
      × ((next ≢ status) ↔ (
          (((status ≡ incomplete) ⊎ (status ≡ expired))
            × (promotion ≢ none)
            × (photo ≡ true)
            × (certificate ≡ true))
          ⊎ ((status ≡ valid) × ((changed ≡ true) ⊎ (reuploaded ≡ true)))))
unfolding next_status
next_status_iff incomplete none photo certificate changed reuploaded = ground arith
next_status_iff incomplete (some p) photo certificate changed reuploaded = ground arith
next_status_iff pending_validation promotion photo certificate changed reuploaded = ground arith
next_status_iff valid promotion photo certificate changed reuploaded = ground arith
next_status_iff expired none photo certificate changed reuploaded = ground arith
next_status_iff expired (some p) photo certificate changed reuploaded = ground arith

school_years_agree :
    (d e : Date)
    → start_year e ≡ start_year d
    → get_current_school_year d ≡ get_current_school_year e
unfolding get_current_school_year
school_years_agree d e h = rw h refl

-- From September of the year 100 on, a certificate uploaded at some time counts at a later one exactly when both lie in the same school
-- year.
pub certificate_current_iff :
    (file : FileObject) (uploaded now : Date)
    → utc_september 100 ≤ uploaded
    → uploaded ≤ now
    → file.expires_at ≡ expiry_of insurance_certificate uploaded
    → (is_current now file ≡ true)
      ↔ (get_current_school_year uploaded ≡ get_current_school_year now)
unfolding is_current expiry_of
certificate_current_iff file uploaded now h le e =
    let from_0 : utc_september 0 ≤ uploaded = omega (arith, utc_september_mono 0 100) in
    let bounds = start_year_bounds uploaded from_0 in
    let bounds_now = start_year_bounds now (omega arith) in
    let end = get_school_year_end_late uploaded (start_year_late uploaded h) in
    let end_now = get_school_year_end_late now (start_year_late now (omega arith)) in
    rw (e, end)
      (
        (λ t. school_years_agree uploaded now (
            start_year_unique now (start_year uploaded) (omega arith) (omega arith)
              (ground arith))),
        λ same.
            let ends : some (utc_september (start_year uploaded + 1))
                ≡ some (utc_september (start_year now + 1)) =
              sym end ∙ ap get_school_year_end same ∙ end_now in
            ground arith,
      )

-- the loop keeps a file of each type that was not seen and has one.
keep_first-type :
    (seen : List FileType) (files : List FileObject) (t : FileType)
    → has_file_of_type (keep_first seen files) t
      ≡ (if any (λ u. file_type_eq u t) seen then false else has_file_of_type files t)
unfolding keep_first has_file_of_type
keep_first-type seen [] t = ground arith
keep_first-type seen (f ∷ fs) t =
    ground (arith, keep_first-type seen fs t, keep_first-type (f.file_type ∷ seen) fs t)

-- The loop of `currentFiles` loses no type of file and adds none: there is a file of a type after it
-- exactly if there is one before it.
pub keep_first_kinds :
    (files : List FileObject) (t : FileType)
    → has_file_of_type (keep_first [] files) t ≡ has_file_of_type files t
keep_first_kinds files t = keep_first-type [] files t
