-- ===== src/Campaigns/Jobs.antt =====
-- packages/guardian_campaigns/jobs.py: the jobs over the database and the queue. `taken` says
-- which campaigns another worker holds locked (SKIP LOCKED), `queue_up` whether Redis takes a job:
-- `schedule_reminder_pr` catches every exception. `none` is the IntegrityError of a commit that
-- breaks the unique key (campaign_id, client_repo) of `reminder_prs`; the session rolls back.
pub mod Reminders
pub mod Evaluation
pub mod Outcomes
pub mod Rows
pub mod Progress
use living_api_contract_guar.Common.{
  ℕ, zero, suc, String, Bool, true, false, not, Option, none, some, List, [], ◌∷◌, ◌++◌, map, any,
  select, ◌&&◌, ◌||◌, ◌==◌, string_key, if◌then◌else◌,
}
use living_api_contract_guar.Common.Int.{ℤ, pos}
use living_api_contract_guar.Common.Text.{◌<>◌}
use living_api_contract_guar.Campaigns.StateMachine.{
  State, draft, active, decaying, ready_to_remove, completed, aborted, Trigger, Machine, Floats,
  CampaignFsm, init, evaluate,
}
use living_api_contract_guar.Campaigns.Decay.{
  Usage, get_rolling_usage, CampaignMetric, record_metric,
}

-- `pr_state` of a reminder; `opened` is the text "open"
pub data PrState : Type 0 where
  pending opened merged closed : PrState

pub record ReminderPr : Type 0 where
  pub campaign_id : String
  pub client_repo : String
  pub branch_name : String
  pub pr_number : Option ℕ
  pub pr_state : PrState

-- The job `send_reminder_pr` for a campaign and a repo.
abbrev pub Job : Type 0
Job = String × String

abbrev pub is_live : PrState → Bool
is_live pending = true
is_live opened = true
is_live merged = false
is_live closed = false

abbrev pub is_for : String → String → ReminderPr → Bool
is_for campaign_id client_repo r = (r.campaign_id == campaign_id) && (r.client_repo == client_repo)

-- `if campaign.endpoint_id:` and the like
abbrev pub if_text : Option String → Option String
if_text none = none
if_text (some s) = if s == "" then none else some s

abbrev pub new_reminder : String → String → ReminderPr
new_reminder campaign_id client_repo = record {
  campaign_id = campaign_id;
  client_repo = client_repo;
  branch_name = "guardian/deprecate-" <> campaign_id;
  pr_number = none;
  pr_state = pending;
}

module _ (floats : Floats) where
  -- The columns that the jobs read or write.
  pub record Campaign : Type 0 where
    pub id : String
    pub endpoint_id : Option String
    pub state : State
    pub usage_threshold_pct : floats.Float
    pub decay_window_days : ℕ
    pub peak_usage : ℤ
    pub github_repo : Option String
    pub updated_at : ℕ

  pub record Database : Type 0 where
    pub campaigns : List Campaign
    pub usages : List Usage
    pub metrics : List (CampaignMetric floats)
    pub reminders : List ReminderPr
    pub jobs : List Job

  pub record Evaluated : Type 0 where
    pub previous_state : State
    pub new_state : State
    pub transition_fired : Option Trigger
    pub usage_count : ℕ
    pub remaining_clients : ℕ
    pub ewma : floats.Float

  pub data JobResult : Type 0 where
    skipped : String → JobResult
    done : Evaluated → JobResult

  abbrev pub find_campaign : String → List Campaign → Option Campaign
  find_campaign id [] = none
  find_campaign id (c ∷ cs) = let rest = find_campaign id cs in if c.id == id then some c else rest

  abbrev pub save_campaign : Campaign → List Campaign → List Campaign
  save_campaign c [] = []
  save_campaign c (d ∷ ds) = (if d.id == c.id then c else d) ∷ save_campaign c ds

  unfoldable pub enqueue : Bool → Job → List Job → List Job
  enqueue queue_up job jobs = if queue_up then jobs ++ (job ∷ []) else jobs

  -- The insertion of a pending row, its commit, and the call of `schedule_reminder_pr`.
  unfoldable pub add_reminder : Bool → String → String → Database → Option Database
  unfolding enqueue
  add_reminder queue_up campaign_id client_repo db =
      if any (is_for campaign_id client_repo) db.reminders
      then none
      else some (record db {
        reminders = db.reminders ++ (new_reminder campaign_id client_repo ∷ []);
        jobs = enqueue queue_up (campaign_id, client_repo) db.jobs;
      })

  -- `_maybe_schedule_reminder`
  unfoldable pub maybe_schedule_reminder :
      Bool → String → Option String → Database → Option Database
  maybe_schedule_reminder queue_up campaign_id none db = some db
  maybe_schedule_reminder queue_up campaign_id (some client_repo) db =
      if any (λ r. is_for campaign_id client_repo r && is_live r.pr_state) db.reminders
      then some db
      else add_reminder queue_up campaign_id client_repo db

  -- `if campaign.state == "decaying" and campaign.github_repo: …`
  unfoldable pub remind : Bool → Campaign → Database → Option Database
  remind queue_up campaign db = elim campaign.state [
    | decaying ↦ maybe_schedule_reminder queue_up campaign.id (if_text campaign.github_repo) db
    | _ ↦ some db
  ]

  unfoldable pub sample : ℕ → List Usage → Option String → ℕ → ℕ × ℕ
  sample now usages none window_days = (0, 0)
  sample now usages (some endpoint_id) window_days =
      get_rolling_usage now usages endpoint_id window_days

  unfoldable pub after_evaluate : ℕ → Campaign → CampaignFsm floats × Option Trigger → Campaign
  after_evaluate now campaign (fsm, none) = campaign
  after_evaluate now campaign (fsm, some t) = record campaign {
    state = fsm.state;
    updated_at = now;
  }

  abbrev pub with_result : JobResult → Option Database → Option (Database × JobResult)
  with_result r none = none
  with_result r (some db) = some (db, r)

  module _ (machine : Machine) (clock later : floats.Float) (now : ℕ) (queue_up : Bool) where
    -- The FSM of a campaign, after its evaluation.
    unfoldable pub evaluated_fsm : Campaign → ℕ → CampaignFsm floats × Option Trigger
    evaluated_fsm campaign usage_count =
        evaluate floats machine clock later (pos usage_count)
          (init floats campaign.id campaign.state campaign.peak_usage campaign.usage_threshold_pct)

    -- The part of `evaluate_campaign` from the usage sampling on.
    unfoldable pub evaluate_row : Campaign → Database → Option (Database × JobResult)
    evaluate_row campaign db =
        let usage =
          sample now db.usages (if_text campaign.endpoint_id) campaign.decay_window_days in
        let metric =
          record_metric floats now db.metrics campaign.id usage.0 usage.1
            campaign.decay_window_days in
        let evaluated = evaluated_fsm campaign usage.0 in
        let updated = after_evaluate now campaign evaluated in
        with_result
          (done (record {
            previous_state = campaign.state;
            new_state = updated.state;
            transition_fired = evaluated.1;
            usage_count = usage.0;
            remaining_clients = usage.1;
            ewma = metric.ewma_value;
          }))
          (remind queue_up updated (record db {
            campaigns = save_campaign updated db.campaigns;
            metrics = db.metrics ++ (metric ∷ []);
          }))

    unfoldable pub evaluate_found : Option Campaign → Database → Option (Database × JobResult)
    evaluate_found none db = some (db, skipped "not_found")
    evaluate_found (some campaign) db = elim campaign.state [
      | completed ↦ some (db, skipped "terminal_state")
      | aborted ↦ some (db, skipped "terminal_state")
      | _ ↦ evaluate_row campaign db
    ]

    -- `evaluate_campaign`
    unfoldable pub evaluate_campaign :
        (String → Bool) → String → Database → Option (Database × JobResult)
    evaluate_campaign taken campaign_id db =
        evaluate_found (if taken campaign_id then none else find_campaign campaign_id db.campaigns)
          db
