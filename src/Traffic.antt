-- ===== src/Traffic.antt =====
-- packages/guardian_core/traffic: observed traffic against the declared contract.
pub mod UrlMatch
pub mod Observed
pub mod Records
pub mod Defacto
pub mod Tables
pub mod Endpoints
pub mod FieldUsages
pub mod Collect
pub mod Ingest
pub mod Merge
pub mod Branches
pub mod Inference
mod Tests
