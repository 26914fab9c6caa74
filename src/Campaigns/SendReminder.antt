-- ===== src/Campaigns/SendReminder.antt =====
-- `send_reminder_pr` of packages/guardian_campaigns/jobs.py. `taken` says whether another worker
-- holds the reminder row locked; then the query finds no row, and the placeholder that is inserted
-- breaks the unique key. `none` is an exception, after which the session rolls back; a pull request
-- that was opened before it stays. `patch` is what `_build_patch_suggestion` returns, `token`
-- whether GITHUB_TOKEN is set.
pub mod Once
use living_api_contract_guar.Common.{
  ℕ, String, Bool, true, false, Option, none, some, List, [], ◌∷◌, ◌++◌, any, if◌then◌else◌, ◌==◌,
  string_key,
}
use living_api_contract_guar.Campaigns.Jobs.{
  PrState, pending, opened, merged, closed, ReminderPr, is_for, new_reminder,
}
use living_api_contract_guar.Campaigns.GithubPr.{Github, PullResult, open_reminder_pr}

pub data SendResult : Type 0 where
  already : Option ℕ → SendResult
  no_token : SendResult
  sent : PullResult → SendResult

abbrev pub find_row : String → String → List ReminderPr → Option ReminderPr
find_row campaign_id client_repo [] = none
find_row campaign_id client_repo (r ∷ rs) =
    let rest = find_row campaign_id client_repo rs in
    if is_for campaign_id client_repo r then some r else rest

abbrev pub mark_opened : ℕ → ReminderPr → ReminderPr
mark_opened number r = record r { pr_number = some number; pr_state = opened }

-- The update of the row of a campaign and repo.
abbrev pub save_opened : String → String → ℕ → List ReminderPr → List ReminderPr
save_opened campaign_id client_repo number [] = []
save_opened campaign_id client_repo number (r ∷ rs) =
    (if is_for campaign_id client_repo r then mark_opened number r else r)
    ∷ save_opened campaign_id client_repo number rs

module _ (github : Github) (token : Bool) (campaign_id client_repo patch : String) where
  abbrev Sent : Type 0
  Sent = Option (github.Hub × List ReminderPr × SendResult)

  unfoldable pub after_open : List ReminderPr → Option (github.Hub × PullResult) → Sent
  after_open rows none = none
  after_open rows (some (hub, result)) =
      some (hub, save_opened campaign_id client_repo result.pr_number rows, sent result)

  unfoldable pub send_pending : github.Hub → List ReminderPr → Sent
  send_pending hub rows =
      if token
      then after_open rows (open_reminder_pr github campaign_id client_repo patch hub)
      else some (hub, rows, no_token)

  -- The part of the job once the row is there.
  unfoldable pub send_row : github.Hub → List ReminderPr → PrState → Option ℕ → Sent
  send_row hub rows pending number = send_pending hub rows
  send_row hub rows opened number = some (hub, rows, already number)
  send_row hub rows merged number = some (hub, rows, already number)
  send_row hub rows closed number = some (hub, rows, already number)

  unfoldable pub send_found : github.Hub → List ReminderPr → Option ReminderPr → Sent
  send_found hub rows (some r) = send_row hub rows r.pr_state r.pr_number
  send_found hub rows none =
      if any (is_for campaign_id client_repo) rows
      then none
      else send_row hub (rows ++ (new_reminder campaign_id client_repo ∷ [])) pending none

  -- `send_reminder_pr`
  unfoldable pub send_reminder_pr : Bool → github.Hub → List ReminderPr → Sent
  send_reminder_pr taken hub rows =
      send_found hub rows (if taken then none else find_row campaign_id client_repo rows)
