-- ===== src/Campaigns/Routes.antt =====
-- The routes `POST /campaigns/{id}/transition` and `POST /campaigns/{id}/evaluate` of
-- apps/api/routes/campaigns.py, on the row that `_read_campaign` finds (404 without one). The
-- response bodies are not kept, but for the fired transition.
pub mod Agree
pub mod Inline
use living_api_contract_guar.Common.{
  ℕ, String, Bool, true, false, Option, none, some, List, [], ◌∷◌, ◌++◌, if◌then◌else◌,
}
use living_api_contract_guar.Common.Int.{ℤ, pos}
use living_api_contract_guar.Campaigns.StateMachine.{
  State, draft, active, decaying, ready_to_remove, completed, aborted, Trigger, activate,
  start_decay, mark_ready, complete, abort, Machine, Floats, CampaignFsm, init, call, evaluate,
}
use living_api_contract_guar.Campaigns.Decay.{
  Usage, get_rolling_usage, CampaignMetric, record_metric,
}
use living_api_contract_guar.Campaigns.Jobs.{
  if_text, Campaign, Database, find_campaign, save_campaign, sample, after_evaluate, evaluated_fsm,
}

-- An answer with status 404 or 422, or a success.
pub data Reply (A : Type 0) : Type 0 where
  not_found unprocessable : Reply A
  success : A → Reply A

-- The `peak_usage` that the call gets, and the one that the campaign then has.
abbrev pub given_peak : Trigger → Option ℕ → ℤ
given_peak activate (some peak) = pos peak
given_peak _ _ = pos 0

abbrev pub saved_peak : Trigger → Option ℕ → ℤ → ℤ
saved_peak activate (some peak) old = pos peak
saved_peak _ _ old = old

module _ (floats : Floats) (machine : Machine) where
  -- Every trigger that the request's type lets through is a method of the FSM; False is no error.
  unfoldable pub after_call :
      ℕ
      → Trigger
      → Option ℕ
      → Campaign floats
      → Database floats
      → Option (CampaignFsm floats × Bool)
      → Reply (Database floats)
  after_call now t peak campaign db none = unprocessable
  after_call now t peak campaign db (some (fsm, result)) =
      let updated : Campaign floats = record campaign {
        state = fsm.state;
        peak_usage = saved_peak t peak campaign.peak_usage;
        updated_at = now;
      } in
      success (record db { campaigns = save_campaign floats updated db.campaigns })

  unfoldable pub transition_found :
      ℕ → Trigger → Option ℕ → Database floats → Option (Campaign floats) → Reply (Database floats)
  transition_found now t peak db none = not_found
  transition_found now t peak db (some campaign) = after_call now t peak campaign db (
      call floats machine (given_peak t peak) t
        (init floats campaign.id campaign.state campaign.peak_usage campaign.usage_threshold_pct))

  -- `transition_campaign`
  unfoldable pub transition_campaign :
      ℕ → String → Trigger → Option ℕ → Database floats → Reply (Database floats)
  transition_campaign now campaign_id t peak db =
      transition_found now t peak db (find_campaign floats campaign_id db.campaigns)

  module _ (clock later : floats.Float) (now : ℕ) where
    unfoldable pub inline_row : Campaign floats → Database floats → Database floats × Option Trigger
    inline_row campaign db =
        let usage =
          sample floats now db.usages (if_text campaign.endpoint_id) campaign.decay_window_days in
        let metric =
          record_metric floats now db.metrics campaign.id usage.0 usage.1
            campaign.decay_window_days in
        let evaluated = evaluate floats machine clock later (pos usage.0) (
          init floats campaign.id campaign.state campaign.peak_usage
            campaign.usage_threshold_pct) in
        (
          record db {
            campaigns =
                save_campaign floats (after_evaluate floats now campaign evaluated) db.campaigns;
            metrics = db.metrics ++ (metric ∷ []);
          },
          evaluated.1,
        )

    unfoldable pub inline_found :
        Database floats → Option (Campaign floats) → Reply (Database floats × Option Trigger)
    inline_found db none = not_found
    inline_found db (some campaign) = elim campaign.state [
      | completed ↦ success (db, none)
      | aborted ↦ success (db, none)
      | _ ↦ success (inline_row campaign db)
    ]

    -- `evaluate_campaign_inline`
    unfoldable pub evaluate_campaign_inline :
        String → Database floats → Reply (Database floats × Option Trigger)
    evaluate_campaign_inline campaign_id db =
        inline_found db (find_campaign floats campaign_id db.campaigns)
