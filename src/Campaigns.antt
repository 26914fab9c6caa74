-- ===== src/Campaigns.antt =====
-- packages/guardian_campaigns: the deprecation campaigns, and the API routes that drive them.
pub mod StateMachine
pub mod Decay
pub mod Jobs
pub mod GithubPr
pub mod SendReminder
pub mod Routes
mod Tests
