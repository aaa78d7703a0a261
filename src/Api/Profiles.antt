-- ===== src/Api/Profiles.antt =====
-- The profile of a student: modules/students, modules/admin and the yearly rollover of modules/auth.
pub mod Status
pub mod Student
pub mod Admin
pub mod Queue
pub mod Rollover
