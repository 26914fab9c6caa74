-- ===== src/Campaigns/Tests/Sending.antt =====
-- A run of the reminder job, on a GitHub that numbers its pull requests.
use living_api_contract_guar.Common.{ℕ, ◌+◌, true, false, some, List, [], ◌∷◌, ◌≡◌, refl}
use living_api_contract_guar.Campaigns.GithubPr.{
  Github, PullResult, branch_of, open_reminder_pr, open_unless, after_ref, create_on, body_of,
}
use living_api_contract_guar.Campaigns.Jobs.{ReminderPr, new_reminder}
use living_api_contract_guar.Campaigns.SendReminder.{
  already, sent, mark_opened, send_reminder_pr, send_found, send_row, send_pending, after_open,
}
use living_api_contract_guar.Campaigns.SendReminder.Once.{send_reminder_pr_once}
use living_api_contract_guar.Campaigns.Tests.Data.{waiting}

abbrev github : Github
github = record {
  Hub = ℕ;
  get_pulls = λ hub repo branch. [];
  create_git_ref = λ hub repo branch. (hub, some 422);
  create_pull = λ hub repo title body branch. some (hub + 1, hub);
}

abbrev opened_rows : List ReminderPr
opened_rows = mark_opened 7 (new_reminder "c1" "acme/shop") ∷ []

abbrev seventh : PullResult
seventh = record { pr_number = 7; created = true; branch = branch_of "c1" }

first_sending :
    send_reminder_pr github true "c1" "acme/shop" "" false 7 waiting
    ≡ some (8, opened_rows, sent seventh)
unfolding send_reminder_pr send_found send_row send_pending after_open open_reminder_pr open_unless
    after_ref create_on body_of
first_sending = refl

send_reminder_pr_once_example :
    send_reminder_pr github true "c1" "acme/shop" "patch" false 8 opened_rows
    ≡ some (8, opened_rows, already (some 7))
send_reminder_pr_once_example =
    send_reminder_pr_once "c1" "acme/shop" github true "" false true "patch" 7 8 8 waiting
      opened_rows seventh first_sending
