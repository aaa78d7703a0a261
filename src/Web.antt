-- ===== src/Web.antt =====
-- apps/web: the logic of the web application that stands between the forms and the API.
pub mod Wizard
pub mod Reasons
pub mod ApiClient
pub mod Conflict
