-- ===== src/Campaigns/Routes/Inline.antt =====
-- The route that evaluates a campaign inline, against the job.
use living_api_contract_guar.Common.{
  ℕ, String, Bool, false, Option, none, some, [], ◌∷◌, ◌++◌, ◌≡◌, arith, string_key, Option-cases,
  inl, inr,
}
use living_api_contract_guar.Campaigns.StateMachine.{Trigger, Machine, Floats}
use living_api_contract_guar.Campaigns.Decay.{record_metric}
use living_api_contract_guar.Campaigns.Jobs.{
  if_text, Campaign, Database, Evaluated, done, find_campaign, save_campaign, sample,
  after_evaluate, with_result, evaluated_fsm, add_reminder, maybe_schedule_reminder, remind,
  evaluate_row, evaluate_found, evaluate_campaign,
}
use living_api_contract_guar.Campaigns.Routes.{
  success, inline_row, inline_found, evaluate_campaign_inline,
}

module _ (floats : Floats) where
  remind-rows :
      (queue_up : Bool) (c : Campaign floats) (db db2 : Database floats)
      → remind floats queue_up c db ≡ some db2
      → (db.campaigns ≡ db2.campaigns) × (db.metrics ≡ db2.metrics)
  unfolding remind maybe_schedule_reminder add_reminder
  remind-rows queue_up c db db2 e = ground arith

  with_result-rows :
      (queue_up : Bool) (c : Campaign floats) (db db2 : Database floats) (r r2 : Evaluated floats)
      → with_result floats (done r) (remind floats queue_up c db) ≡ some (db2, done r2)
      → (db.campaigns ≡ db2.campaigns)
        × (db.metrics ≡ db2.metrics)
        × (r.transition_fired ≡ r2.transition_fired)
  with_result-rows queue_up c db db2 r r2 e = elim (Option-cases (remind floats queue_up c db)) [
    | inl n ↦ absurd cc
    | inr (db3, q) ↦ ground (arith, remind-rows queue_up c db db3 q, q, e)
  ]

  module _ (machine : Machine) (clock later : floats.Float) (now : ℕ) (queue_up : Bool) where
    -- The route has written the campaigns and metrics that the job wrote.
    abbrev pub SameRows :
        Database floats → Evaluated floats → Database floats × Option Trigger → Type 0
    SameRows db2 r (db3, fired) =
        (db3.campaigns ≡ db2.campaigns) × (db3.metrics ≡ db2.metrics) × (fired ≡ r.transition_fired)

    row-SameRows :
        (c : Campaign floats) (db db2 : Database floats) (r : Evaluated floats)
        → evaluate_row floats machine clock later now queue_up c db ≡ some (db2, done r)
        → SameRows db2 r (inline_row floats machine clock later now c db)
    unfolding evaluate_row inline_row evaluated_fsm
    row-SameRows c db db2 r e =
        let usage = sample floats now db.usages (if_text c.endpoint_id) c.decay_window_days in
        let m = record_metric floats now db.metrics c.id usage.0 usage.1 c.decay_window_days in
        let p = evaluated_fsm floats machine clock later now queue_up c usage.0 in
        let c2 = after_evaluate floats now c p in
        let out : Evaluated floats = record {
          previous_state = c.state;
          new_state = c2.state;
          transition_fired = p.1;
          usage_count = usage.0;
          remaining_clients = usage.1;
          ewma = m.ewma_value;
        } in
        with_result-rows queue_up c2
          (record db {
            campaigns = save_campaign floats c2 db.campaigns;
            metrics = db.metrics ++ (m ∷ []);
          })
          db2 out r e

    found-SameRows :
        (o : Option (Campaign floats)) (db db2 : Database floats) (r : Evaluated floats)
        → evaluate_found floats machine clock later now queue_up o db ≡ some (db2, done r)
        → (out : Database floats × Option Trigger) × (inline_found floats machine clock later now db
              o
            ≡ success out)
          × SameRows db2 r out
    unfolding evaluate_found inline_found
    found-SameRows none db db2 r e = absurd cc
    found-SameRows (some c) db db2 r e = (
      inline_row floats machine clock later now c db,
      ground arith,
      ground (arith, row-SameRows c db db2 r),
    )

    -- When the job `evaluate_campaign` evaluates a campaign, the inline route on the same
    -- database, with the same clocks, succeeds with the same transition, and leaves the same
    -- campaigns and metrics.
    pub evaluate_campaign_inline-SameRows :
        (id : String) (db db2 : Database floats) (r : Evaluated floats)
        → evaluate_campaign floats machine clock later now queue_up (λ k. false) id db
          ≡ some (db2, done r)
        → (out : Database floats × Option Trigger) × (evaluate_campaign_inline floats machine clock
              later now id db
            ≡ success out)
          × SameRows db2 r out
    unfolding evaluate_campaign evaluate_campaign_inline
    evaluate_campaign_inline-SameRows id db db2 r e =
        found-SameRows (find_campaign floats id db.campaigns) db db2 r e
