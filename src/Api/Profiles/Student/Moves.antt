-- ===== src/Api/Profiles/Student/Moves.antt =====
-- How the actions of a student move the table of the profiles.
use mathlib.Core.Path.{subst}
use campus_internship.Prelude.{
  ◌==◌, ◌≡◌, ◌⊎◌, refl, sym, ◌∙◌, Bool, List, [], ◌∷◌, arith, Bool-cases, inl, inr,
}
use campus_internship.Shared.Enums.{
  ProfileStatus, incomplete, pending_validation, valid, expired, FileType,
}
use campus_internship.Shared.Calendar.{Date}
use campus_internship.Api.Schema.{Uuid, FileObject, StudentProfile, Db}
use campus_internship.Api.World.{Env, ◌>>=◌}
use campus_internship.Api.World.Preserves.{IsPreorder, Preserves, Preserves-bind, preserves_rules}
use campus_internship.Api.Prisma.{Client, IsClient, update_where}
use campus_internship.Api.Profiles.Status.{
  Event, Patch, unchanged, moved, resubmitted, apply_status_transition, status_after, patched,
  patch_of,
}
use campus_internship.Api.Profiles.Status.Laws.{StudentMove, next_status_iff}
use campus_internship.Api.Profiles.Student.{
  ProfileUpdate, Upload, with_fields, find_profile_or_throw, update_row, update_profile,
  upload_file, update_profiles, insert_file,
}

-- a row that keeps its student, and whose status stays or becomes pending validation
pub record StudentStep (old new : StudentProfile) : Type 0 where
  pub id : new.id ≡ old.id
  pub user : new.user_id ≡ old.user_id
  pub status : (new.profile_status ≡ old.profile_status) ⊎ (new.profile_status ≡ pending_validation)

abbrev pub AllStep : List StudentProfile → List StudentProfile → Type 0
AllStep [] [] = Unit
AllStep (p ∷ ps) (q ∷ qs) = StudentStep p q × AllStep ps qs
AllStep _ _ = ⊥

pub record ProfilesMove (a b : Db) : Type 0 where
  pub rows : AllStep a.profiles b.profiles

StudentStep-refl : (p : StudentProfile) → StudentStep p p
StudentStep-refl p = record { id = refl; user = refl; status = inl refl }

AllStep-refl : (ps : List StudentProfile) → AllStep ps ps
AllStep-refl [] = tt
AllStep-refl (p ∷ ps) = (StudentStep-refl p, AllStep-refl ps)

StudentStep-trans : (p q r : StudentProfile) → StudentStep p q → StudentStep q r → StudentStep p r
StudentStep-trans p q r h k = record {
  id = k.id ∙ h.id;
  user = k.user ∙ h.user;
  status = ground (arith, h.status, k.status);
}

AllStep-trans : (ps qs rs : List StudentProfile) → AllStep ps qs → AllStep qs rs → AllStep ps rs
AllStep-trans [] [] [] h k = tt
AllStep-trans (p ∷ ps) (q ∷ qs) (r ∷ rs) h k =
    (StudentStep-trans p q r h.0 k.0, AllStep-trans ps qs rs h.1 k.1)
AllStep-trans [] [] (r ∷ rs) h k = absurd k
AllStep-trans [] (q ∷ qs) rs h k = absurd h
AllStep-trans (p ∷ ps) [] rs h k = absurd h
AllStep-trans (p ∷ ps) (q ∷ qs) [] h k = absurd k

ProfilesMove-preorder : IsPreorder ProfilesMove
ProfilesMove-preorder = record {
  stay = λ a. record { rows = AllStep-refl a.profiles };
  chain =
      λ a b c h k. record { rows = AllStep-trans a.profiles b.profiles c.profiles h.rows k.rows };
}

update_where-AllStep :
    (test : StudentProfile → Bool) (f : StudentProfile → StudentProfile)
    → ((p : StudentProfile) → StudentStep p (f p))
    → (ps : List StudentProfile) → AllStep ps (update_where test f ps)
unfolding update_where
update_where-AllStep test f h [] = tt
update_where-AllStep test f h (p ∷ ps) = elim (Bool-cases (test p)) [
  | inl t ↦ rw t (h p, update_where-AllStep test f h ps)
  | inr t ↦ rw t (StudentStep-refl p, update_where-AllStep test f h ps)
]

-- a patch that sets no other status than pending validation
abbrev ToPending : Patch → Type 0
ToPending unchanged = Unit
ToPending (moved next) = next ≡ pending_validation
ToPending (resubmitted year) = Unit

same-ToPending : (now : Date) (old : ProfileStatus) → ToPending (patch_of now old old)
unfolding patch_of
same-ToPending now incomplete = tt
same-ToPending now pending_validation = tt
same-ToPending now valid = tt
same-ToPending now expired = tt

pending-ToPending :
    (now : Date) (old : ProfileStatus) → ToPending (patch_of now old pending_validation)
unfolding patch_of
pending-ToPending now incomplete = tt
pending-ToPending now pending_validation = tt
pending-ToPending now valid = refl
pending-ToPending now expired = tt

patch_of-ToPending :
    (now : Date) (old next : ProfileStatus)
    → StudentMove old next
    → ToPending (patch_of now old next)
patch_of-ToPending now old next h = elim h [
  | inl same ↦ subst (λ s. ToPending (patch_of now old s)) (sym same) (same-ToPending now old)
  | inr move ↦ subst (λ s. ToPending (patch_of now old s)) (sym move.0) (pending-ToPending now old)
]

status_after-StudentMove :
    (read : StudentProfile) (files : List FileObject) (event : Event)
    → StudentMove read.profile_status (status_after read files event)
unfolding status_after
status_after-StudentMove read files event = (next_status_iff read.profile_status _ _ _ _ _).0

transition-ToPending :
    (now : Date) (read : StudentProfile) (files : List FileObject) (event : Event)
    → ToPending (apply_status_transition now read files event)
unfolding apply_status_transition
transition-ToPending now read files event =
    patch_of-ToPending now read.profile_status (status_after read files event)
      (status_after-StudentMove read files event)

-- whatever profile the event was decided on, the patch moves any row by a step
patched-StudentStep :
    (patch : Patch) → ToPending patch → (p : StudentProfile) → StudentStep p (patched patch p)
unfolding patched
patched-StudentStep unchanged h p = StudentStep-refl p
patched-StudentStep (moved next) h p = record { id = refl; user = refl; status = inr h }
patched-StudentStep (resubmitted year) h p = record { id = refl; user = refl; status = inr refl }

fields-StudentStep :
    (dto : ProfileUpdate) (patch : Patch)
    → ToPending patch
    → (p : StudentProfile) → StudentStep p (patched patch (with_fields dto p))
fields-StudentStep dto patch h p =
    let s = patched-StudentStep patch h (with_fields dto p) in
    record { id = s.id; user = s.user; status = s.status }

module _ (c : Client) (law : IsClient c) (env : Env) where
  update_profiles-ProfilesMove :
      (test : StudentProfile → Bool) (f : StudentProfile → StudentProfile)
      → ((p : StudentProfile) → StudentStep p (f p))
      → Preserves ProfilesMove (update_profiles c env test f)
  unfolding update_profiles ◌>>=◌
  update_profiles-ProfilesMove test f h = record {
    at = λ w. record {
      rows =
          rw (law.update_many_lem StudentProfile test f w.db.profiles)
            (update_where-AllStep test f h w.db.profiles);
    };
  }

  update_row-ProfilesMove :
      (id : Uuid) (f : StudentProfile → StudentProfile)
      → ((p : StudentProfile) → StudentStep p (f p))
      → Preserves ProfilesMove (update_row c env id f)
  unfolding update_row
  update_row-ProfilesMove id f h =
      let stamped =
        update_profiles-ProfilesMove (λ p. p.id == id) (λ p. record (f p) { updated_at = env.now })
          (λ p. let s = h p in record { id = s.id; user = s.user; status = s.status }) in
      Preserves-bind ProfilesMove-preorder _ _ stamped
        (λ n. search (preserves_rules, ProfilesMove-preorder) depth 12)

  insert_file-ProfilesMove : (f : FileObject) → Preserves ProfilesMove (insert_file c env f)
  unfolding insert_file ◌>>=◌
  insert_file-ProfilesMove f = record {
    at = λ w.
        let kept : (insert_file c env f w).1.db.profiles ≡ w.db.profiles = ground arith in
        record { rows = rw kept (AllStep-refl w.db.profiles) };
  }

  -- Saving the profile keeps every profile for its student, and leaves its status or makes it pending
  -- validation: a student never makes a profile valid. It holds on errors too.
  pub update_profile-ProfilesMove :
      (user_id : Uuid) (dto : ProfileUpdate)
      → Preserves ProfilesMove (update_profile c env user_id dto)
  unfolding update_profile find_profile_or_throw
  update_profile-ProfilesMove user_id dto =
      search
        (
          preserves_rules, ProfilesMove-preorder, update_row-ProfilesMove, fields-StudentStep,
          transition-ToPending,
        )
        depth 14

  -- The upload of a file keeps every profile for its student, and leaves its status or makes it
  -- pending validation, on errors too.
  pub upload_file-ProfilesMove :
      (user_id : Uuid) (t : FileType) (file : Upload)
      → Preserves ProfilesMove (upload_file c env user_id t file)
  unfolding upload_file find_profile_or_throw
  upload_file-ProfilesMove user_id t file =
      search
        (
          preserves_rules, ProfilesMove-preorder, update_row-ProfilesMove, insert_file-ProfilesMove,
          patched-StudentStep, transition-ToPending,
        )
        depth 14
