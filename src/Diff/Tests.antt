-- ===== src/Diff/Tests.antt =====
-- Runs of packages/guardian_diff on small contracts.
mod Data
mod Walks
mod Contracts
mod Rulesets
