-- ===== src/Shared.antt =====
-- packages/shared: the code that the API and the web application share.
pub mod Enums
pub mod Calendar
pub mod SchoolYear
pub mod StagePeriod
pub mod Submission
pub mod Forms
