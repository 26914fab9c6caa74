-- ===== src/Campaigns/Jobs/Reminders.antt =====
-- The campaign's reminder that is there already.
use living_api_contract_guar.Common.{
  String, Bool, true, some, ◌≡◌, arith, any, ◌&&◌, string_key, pair_key,
}
use living_api_contract_guar.Campaigns.StateMachine.{Floats}
use living_api_contract_guar.Campaigns.Jobs.{
  is_live, is_for, if_text, Campaign, Database, maybe_schedule_reminder, remind,
}

module _ (floats : Floats) (queue_up : Bool) where
  -- Nothing new happens while a pending or open reminder is there.
  pub remind-live :
      (campaign : Campaign floats) (repo : String) (db db2 : Database floats)
      → if_text campaign.github_repo ≡ some repo
      → any (λ r. is_for campaign.id repo r && is_live r.pr_state) db.reminders ≡ true
      → remind floats queue_up campaign db ≡ some db2
      → db2 ≡ db
  unfolding remind maybe_schedule_reminder
  remind-live campaign repo db db2 h k e = ground arith
