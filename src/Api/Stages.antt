-- ===== src/Api/Stages.antt =====
-- apps/api/src/modules/stages: the requests of the students and the decisions of the admins.
pub mod Responses
pub mod Freeze
pub mod Read
pub mod Resolve
pub mod Create
pub mod Update
pub mod Submit
pub mod Decide
pub mod Evolution
pub mod Listing
pub mod Queue
pub mod Reading
pub mod Lifecycle
