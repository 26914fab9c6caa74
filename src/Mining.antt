-- ===== src/Mining.antt =====
-- packages/guardian_core/mining: the call sites of client repositories.
pub mod PathNormalize
pub mod CallSites
mod Tests
