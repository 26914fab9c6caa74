-- ===== src/Campaigns/Tests.antt =====
-- Runs of packages/guardian_campaigns and its routes: the data, and the witnesses.
mod Data
mod States
mod Runs
mod Sending
