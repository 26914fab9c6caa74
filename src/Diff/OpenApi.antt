-- ===== src/Diff/OpenApi.antt =====
-- packages/guardian_diff/openapi.py: the raw changes between two decoded OpenAPI documents.
-- `repr` is Python's repr of a decoded JSON value.
pub mod Reading
pub mod Schema
pub mod Operation
pub mod Paths
pub mod Quiet
pub mod Same
pub mod Readable
pub mod Known
pub mod Rules
pub mod Events
pub mod Limits
