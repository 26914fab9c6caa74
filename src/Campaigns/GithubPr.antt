-- ===== src/Campaigns/GithubPr.antt =====
-- packages/guardian_campaigns/github_pr.py, for a job that passes its token. GitHub is the
-- parameter `github`, with a state of its own; `none` is an exception of its client.
use Prim.Native.String.{slice}
use living_api_contract_guar.Common.{
  ℕ, String, Bool, true, false, Option, none, some, List, [], ◌∷◌, nat_beq, if◌then◌else◌, ◌==◌,
  string_key,
}
use living_api_contract_guar.Common.Text.{◌<>◌}

pub record Github : Type 1 where
  pub Hub : Type 0
  -- the numbers of the open pull requests of a repo from a branch of its owner
  pub get_pulls : Hub → String → String → List ℕ
  -- the status of the exception, when the branch could not be created
  pub create_git_ref : Hub → String → String → Hub × Option ℕ
  -- repo, title, body and branch
  pub create_pull : Hub → String → String → String → String → Option (Hub × ℕ)

pub record PullResult : Type 0 where
  pub pr_number : ℕ
  pub created : Bool
  pub branch : String

abbrev pub branch_of : String → String
branch_of campaign_id = "guardian/deprecate-" <> campaign_id

abbrev or_default : String → String
or_default patch = if patch == "" then "_No automated patch available._" else patch

-- `_DEFAULT_BODY.format(…)`
unfoldable pub body_of : String → String → String
body_of patch_suggestion campaign_id =
    "## Deprecation reminder\n\nThis pull request was opened automatically by the\n[Living API Contract Guardian](https://github.com/your-org/living-api-contract-guardian).\n\nThe endpoint / field referenced by this campaign has been deprecated.\nPlease migrate your usage before the sunset date.\n\n### Suggested changes\n\n"
    <> patch_suggestion <> "\n\n---\n*Campaign id: `" <> campaign_id <> "`*\n"

module _ (github : Github) where
  abbrev pub pull_result : String → Option (github.Hub × ℕ) → Option (github.Hub × PullResult)
  pull_result campaign_id none = none
  pull_result campaign_id (some (hub, number)) =
      some (hub, record { pr_number = number; created = true; branch = branch_of campaign_id })

  unfoldable pub create_on :
      String → String → String → github.Hub → Option (github.Hub × PullResult)
  create_on campaign_id client_repo patch hub = pull_result campaign_id (
      github.create_pull hub client_repo
        ("chore: deprecate endpoint/field (campaign " <> slice campaign_id 0 8 <> ")")
        (body_of (or_default patch) campaign_id) (branch_of campaign_id))

  -- After the creation of the branch; a branch that exists (status 422) is no error.
  unfoldable pub after_ref :
      String → String → String → github.Hub × Option ℕ → Option (github.Hub × PullResult)
  after_ref campaign_id client_repo patch (hub, none) = create_on campaign_id client_repo patch hub
  after_ref campaign_id client_repo patch (hub, some status) =
      if nat_beq status 422 then create_on campaign_id client_repo patch hub else none

  -- The loop over the open pull requests, which returns at the first.
  unfoldable pub open_unless :
      List ℕ → String → String → String → github.Hub → Option (github.Hub × PullResult)
  open_unless (number ∷ numbers) campaign_id client_repo patch hub =
      some (hub, record { pr_number = number; created = false; branch = branch_of campaign_id })
  open_unless [] campaign_id client_repo patch hub =
      after_ref campaign_id client_repo patch
        (github.create_git_ref hub client_repo (branch_of campaign_id))

  -- `open_reminder_pr`
  unfoldable pub open_reminder_pr :
      String → String → String → github.Hub → Option (github.Hub × PullResult)
  open_reminder_pr campaign_id client_repo patch hub =
      open_unless (github.get_pulls hub client_repo (branch_of campaign_id)) campaign_id client_repo
        patch hub
