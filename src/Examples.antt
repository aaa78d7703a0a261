-- ===== src/Examples.antt =====
-- Runs of the services on a small database, and the theorems at concrete inputs.
mod Fixtures
mod Calendar
mod Stages
mod Decisions
mod Submissions
mod Profiles
mod Sessions
mod Listing
mod Referents
mod Web
mod Accounts
mod Queue
mod Organisms
