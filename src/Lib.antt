-- ===== src/Lib.antt =====
-- Verification of the internship request and validation system (`apps/api`,
-- `apps/web`, `packages/shared`).
--
-- A student fills in a profile and requests for internships (stages); an admin validates or refuses
-- them. The shared package holds the rules that the web application and the API both apply; the
-- services of the API hold the operations, each of which reads and writes one database.
--
-- `Shared` models packages/shared/src/schemas:
--   Shared/Calendar      what the rules use of JavaScript's `Date`: milliseconds in UTC
--   Shared/SchoolYear    school-year.schema.ts: the schema and the bounds of a school year
--   Shared/StagePeriod   stage-period.schema.ts: the schema of the periods, `deriveSemester`
--   Shared/Submission    stage-submission.schema.ts: `getSubmissionBlockers`
--   Shared/Forms         refuse-stage.schema.ts, reject-profile.schema.ts and password.schema.ts
--   Shared/Enums         packages/shared/src/enums
-- `Api` models apps/api/src:
--   Api/Schema           the tables of apps/api/prisma/schema.prisma, as lists of rows
--   Api/World            what a handler reads and changes: the database, the emails sent and the
--                        log; a method is an action that returns or throws
--   Api/Prisma           the database client: an interface, its documented behaviour as laws, and a
--                        client that computes
--   Api/Mailer           modules/mailer/mailer.service.ts and common/admin-email.util.ts
--   Api/Json, Snapshot   modules/stages/stage-snapshot.schema.ts, on JSON values
--   Api/Stages           modules/stages: `createDraft`, `updateDraft`, `duplicate`, `submit`,
--                        `getById` and `list` of the student's service, `refuseStage`,
--                        `validateStage`, `list` and `getById` of the admin's one
--   Api/Stages/Evolution, Lifecycle
--                        how each write moves the stages and their periods, and runs of many
--                        requests
--   Api/Profiles         modules/students, the validation and the rejection of profiles and the
--                        queue of certificates in modules/admin, and the yearly rollover of
--                        modules/auth
--   Api/Sessions         modules/auth: `signup`, `login`, `refresh`, `logout`, `forgotPassword` and
--                        `resetPassword`
--   Api/Referents        modules/referents: `list`, `create` and `assign`
--   Api/Organisms        modules/organisms: `search` and `findById`
--   Api/Guards           common/guards, common/filters/prisma-exception.filter.ts and
--                        modules/auth/strategies/jwt.strategy.ts
-- `Web` models apps/web/src:
--   Web/Wizard           features/stages/edit/wizard/StageWizard.tsx: its states, its handlers, and
--                        the events of the interface as a step relation
--   Web/Reasons          the reasons that the two dialogs of an admin build
--   Web/Conflict         features/stages/edit/save/stage-conflict.ts
--   Web/ApiClient        lib/api-client.ts: a request and its retry, over any server
-- `Examples` holds a small database, and the theorems applied to it.
--
-- Correspondence. A method of a service is a function of the same name in snake case, by do blocks
-- in the order of the source; its client and its platform (clock, ids, `toISOString`, the mail
-- provider) are parameters. A handler is one action; for interleavings, Lifecycle takes each write
-- of the handlers as a step of its own, from whatever was read before. A transaction is one step,
-- and what it wrote is undone when its body throws. Dates are natural numbers of milliseconds from
-- the year 0 on, and `Date.UTC` takes the years 0 to 99 for 1900 to 1999, as JavaScript does; texts
-- are lists of UTF-16 units. Two definitions run on fuel: `show`, whose fuel is the number that it
-- prints plus one, and `fetch_with_auth`, for which two is enough.
--
-- Not modelled: the HTTP layer, the object storage, the rendering of the web views, the default
-- branch of the filter of database errors, and the list of the types of structures. Types of columns
-- stand for the constraints of the database; the unique ids of rows are a hypothesis where they
-- matter.
mod Prelude
pub mod Shared
pub mod Api
pub mod Web
mod Examples
