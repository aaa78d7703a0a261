-- ===== src/Api/Stages/Evolution.antt =====
-- How the rows of the stages may change: what every operation of the services respects.
pub mod Rows
pub mod Steps
pub mod Writes
pub mod Operations
pub mod Updates
pub mod Periods
pub mod Keeping
pub mod Redrafts
use campus_internship.Prelude.{ℕ, ◌≤◌, ◌≡◌, ◌≢◌, refl, sym, ◌∙◌, Bool, true, Option, arith, Text}
use campus_internship.Shared.Enums.{Semester, StageStatus, draft, pending, validated, refused}
use campus_internship.Shared.SchoolYear.{SchoolYear}
use campus_internship.Api.Schema.{Uuid, Stage}
use campus_internship.Api.Stages.Freeze.{is_decided}

-- The transitions of a request, none included: from draft to pending, and from there to a decision.
abbrev pub Forward : StageStatus → StageStatus → Type 0
Forward draft new = Unit
Forward pending draft = ⊥
Forward pending new = Unit
Forward old new = new ≡ old

-- the content that the wizard writes
pub record Content : Type 0 where
  pub school_year : SchoolYear
  pub semester : Semester
  pub mandatory : Bool
  pub service : Option Text
  pub project_type : Option Text
  pub motivation : Option Text
  pub organism_id : Option Uuid
  pub tutor_id : Option Uuid

abbrev pub content : Stage → Content
content s = record {
  school_year = s.school_year;
  semester = s.semester;
  mandatory = s.mandatory;
  service = s.service;
  project_type = s.project_type;
  motivation = s.motivation;
  organism_id = s.organism_id;
  tutor_id = s.tutor_id;
}

pub record StageStep (old new : Stage) : Type 0 where
  pub id : new.id ≡ old.id
  pub student : new.student_id ≡ old.student_id
  pub version : old.version ≤ new.version
  -- a write that keeps the version has written nothing
  pub locked : new.version ≡ old.version → new ≡ old
  pub forward : Forward old.status new.status
  -- what was submitted keeps its content
  pub content : old.status ≢ draft → content new ≡ content old
  -- what was decided keeps everything
  pub frozen : is_decided old ≡ true → new ≡ old

pub StageStep-refl : (s : Stage) → StageStep s s
StageStep-refl s = record {
  id = refl;
  student = refl;
  version = omega arith;
  locked = λ _. refl;
  forward = stay s.status;
  content = λ _. refl;
  frozen = λ _. refl;
}
  where
    stay : (x : StageStatus) → Forward x x
    stay draft = tt
    stay pending = tt
    stay validated = refl
    stay refused = refl

Forward-trans : (x y z : StageStatus) → Forward x y → Forward y z → Forward x z
Forward-trans draft y z h k = tt
Forward-trans pending draft z h k = absurd h
Forward-trans pending pending z h k = k
Forward-trans pending validated z h k = ground arith
Forward-trans pending refused z h k = ground arith
Forward-trans validated y z h k = ground arith
Forward-trans refused y z h k = ground arith

pub Forward-ne-draft : (x y : StageStatus) → x ≢ draft → Forward x y → y ≢ draft
Forward-ne-draft draft y h k = absurd (h refl)
Forward-ne-draft pending draft h k = absurd k
Forward-ne-draft _ y h k = ground arith

pub StageStep-trans : {a b c : Stage} → StageStep a b → StageStep b c → StageStep a c
StageStep-trans {a} {b} {c} h k = record {
  id = k.id ∙ h.id;
  student = k.student ∙ h.student;
  version = omega arith;
  locked = λ e.
      let ab : b.version ≡ a.version = omega (arith, h.version, k.version) in
      let bc : c.version ≡ b.version = omega (arith, h.version, k.version) in
      k.locked bc ∙ h.locked ab;
  forward = Forward-trans a.status b.status c.status h.forward k.forward;
  content = λ e. k.content (Forward-ne-draft a.status b.status e h.forward) ∙ h.content e;
  frozen = λ e. let ab : b ≡ a = h.frozen e in k.frozen (rw ab e) ∙ ab;
}
