-- ===== src/Api.antt =====
-- apps/api/routes: the handlers over the rows of the database.
pub mod Tables
pub mod Services
pub mod CiRuns
mod Tests
