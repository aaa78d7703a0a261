-- ===== src/Api.antt =====
-- apps/api: the services of the NestJS application.
pub mod Http
pub mod Json
pub mod Snapshot
pub mod Schema
pub mod World
pub mod Prisma
pub mod Mailer
pub mod Stages
pub mod Profiles
pub mod Sessions
pub mod Referents
pub mod Guards
pub mod Organisms
