-- ===== src/Diff.antt =====
-- packages/guardian_diff: raw-change walkers, the rule engine and the report.
pub mod Models
pub mod Ruleset
pub mod DefaultRules
pub mod Raising
pub mod OpenApi
pub mod Proto
pub mod Clients
pub mod Engine
pub mod Contracts
mod Tests
