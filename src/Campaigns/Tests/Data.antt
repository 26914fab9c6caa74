-- ===== src/Campaigns/Tests/Data.antt =====
-- A machine as documented, arithmetic in hundredths, and a small database.
use Prim.Native.Nat.{ℕ, ◌+◌, ◌-◌, ◌*◌, ◌/◌}
use living_api_contract_guar.Common.{
  String, none, some, List, [], ◌∷◌, refl, select, leb, ltb, ◌==◌, string_key, if◌then◌else◌,
}
use living_api_contract_guar.Common.Int.{ℤ, pos, negsuc}
use living_api_contract_guar.Campaigns.StateMachine.{
  State, active, decaying, start_decay, Machine, outcome, applies, Floats, CampaignFsm,
}
use living_api_contract_guar.Campaigns.Jobs.{
  Campaign, Database, ReminderPr, new_reminder, Job, Evaluated,
}

abbrev pub machine : Machine
machine = record {
  fire = λ trs guard s t. outcome guard (select (applies s t) trs);
  documented = λ trs guard s t. refl;
}

abbrev natural : ℤ → ℕ
natural (pos n) = n
natural (negsuc n) = 0

abbrev hundredths : String → ℕ
hundredths s =
    if s == "100.0" then 10000 else if s == "5.0" then 500 else if s == "1.0" then 100 else 1

abbrev pub floats : Floats
floats = record {
  Float = ℕ;
  literal = hundredths;
  div = λ a b. natural a * 100 / natural b;
  of_int = λ a. natural a * 100;
  add = λ a b. a + b;
  mul = λ a b. a * b / 100;
  sub = λ a b. a - b;
  le = leb;
  lt = ltb;
  round = λ a n. a;
}

abbrev pub fsm : State → CampaignFsm floats
fsm s = record {
  campaign_id = "c1";
  state = s;
  peak_usage = pos 100;
  usage_threshold_pct = 500;
  current_usage = pos 0;
  last_transition_at = none;
}

abbrev pub campaign : State → Campaign floats
campaign s = record {
  id = "c1";
  endpoint_id = none;
  state = s;
  usage_threshold_pct = 500;
  decay_window_days = 30;
  peak_usage = pos 100;
  github_repo = some "acme/shop";
  updated_at = 0;
}

abbrev pub database : State → List ReminderPr → Database floats
database s reminders = record {
  campaigns = campaign s ∷ [];
  usages = [];
  metrics = [];
  reminders = reminders;
  jobs = [];
}

abbrev pub waiting : List ReminderPr
waiting = new_reminder "c1" "acme/shop" ∷ []

-- The database after the evaluation at time 9 of an active campaign without usage.
abbrev pub evaluated : List Job → Database floats
evaluated jobs = record {
  campaigns = record (campaign decaying) { updated_at = 9 } ∷ [];
  usages = [];
  metrics =
      record {
        campaign_id = "c1";
        sampled_at = 9;
        usage_count = 0;
        ewma_value = 0;
        remaining_client_count = 0;
      }
      ∷ [];
  reminders = waiting;
  jobs = jobs;
}

abbrev pub result : Evaluated floats
result = record {
  previous_state = active;
  new_state = decaying;
  transition_fired = some start_decay;
  usage_count = 0;
  remaining_clients = 0;
  ewma = 0;
}
