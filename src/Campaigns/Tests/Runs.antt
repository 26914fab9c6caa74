-- ===== src/Campaigns/Tests/Runs.antt =====
-- Witnesses for the jobs and the routes.
use living_api_contract_guar.Common.{
  ℕ, true, false, Option, none, some, [], ◌∷◌, ◌≡◌, ◌↔◌, ◌==◌, string_key, refl,
}
use living_api_contract_guar.Campaigns.StateMachine.{
  active, decaying, ready_to_remove, aborted, init, evaluate, is_locked, stamp, try_triggers, call,
  after_fire, guard, allows_start_decay, allows_mark_ready, ratio, next_trigger, run_before,
  Trigger, activate, abort,
}
use living_api_contract_guar.Campaigns.StateMachine.Paths.{diagram}
use living_api_contract_guar.Campaigns.Decay.{
  alpha, at_least_one, compute_ewma, latest, prev_ewma_of, record_metric,
}
use living_api_contract_guar.Campaigns.Jobs.{
  Campaign, Database, JobResult, done, find_campaign, evaluate_campaign, evaluate_found,
  evaluate_row, remind, after_evaluate, evaluated_fsm, sample, maybe_schedule_reminder,
  add_reminder, enqueue,
}
use living_api_contract_guar.Campaigns.Jobs.Outcomes.{Reminded, evaluate_campaign-Reminded}
use living_api_contract_guar.Campaigns.Jobs.Evaluation.{
  Moves, evaluate_campaign-Moves, evaluate_campaign-live,
}
use living_api_contract_guar.Campaigns.Jobs.Progress.{in_state, evaluate_campaign-ready}
use living_api_contract_guar.Campaigns.Routes.{
  success, unprocessable, after_call, transition_found, transition_campaign,
  evaluate_campaign_inline,
}
use living_api_contract_guar.Campaigns.Routes.Agree.{
  Written, transition_campaign-rejects, transition_campaign-Written,
}
use living_api_contract_guar.Campaigns.Routes.Inline.{SameRows, evaluate_campaign_inline-SameRows}
use living_api_contract_guar.Campaigns.Tests.Data.{
  machine, floats, campaign, database, waiting, evaluated, result,
}

transition_campaign-rejects_example :
    (transition_campaign floats machine 9 "c1" activate none (database active []) ≡ unprocessable)
    ↔ (diagram active activate ≡ none)
transition_campaign-rejects_example =
    transition_campaign-rejects floats machine 9 "c1" activate none (database active [])
      (campaign active) refl

abbrev after_abort : ℕ → Database floats
after_abort now = record (database active []) {
  campaigns = record (campaign aborted) { updated_at = now } ∷ [];
}

transition_campaign-Written_example :
    (c : Campaign floats) × (find_campaign floats "c1" (after_abort 9).campaigns ≡ some c)
    × Written floats machine abort (campaign active) (diagram active abort) c
unfolding transition_campaign transition_found after_call init call after_fire
transition_campaign-Written_example =
    transition_campaign-Written floats machine 9 "c1" abort none (database active [])
      (after_abort 9) (campaign active) refl refl

first_evaluation :
    evaluate_campaign floats machine 0 1 9 true (λ k. false) "c1" (database active [])
    ≡ some (evaluated (("c1", "acme/shop") ∷ []), done result)
unfolding evaluate_campaign evaluate_found evaluate_row remind after_evaluate evaluated_fsm evaluate
    is_locked init stamp try_triggers call after_fire guard allows_start_decay ratio sample
    maybe_schedule_reminder alpha at_least_one compute_ewma latest prev_ewma_of record_metric
    add_reminder enqueue next_trigger run_before
first_evaluation = refl

later_evaluation :
    evaluate_campaign floats machine 0 1 9 true (λ k. false) "c1" (database active waiting)
    ≡ some (evaluated [], done result)
unfolding evaluate_campaign evaluate_found evaluate_row remind after_evaluate evaluated_fsm evaluate
    is_locked init stamp try_triggers call after_fire guard allows_start_decay ratio sample
    maybe_schedule_reminder alpha at_least_one compute_ewma latest prev_ewma_of record_metric
    add_reminder enqueue next_trigger run_before
later_evaluation = refl

evaluate_campaign-Reminded_example :
    Reminded floats true
      (database active [])
      "c1"
      (evaluate_campaign floats machine 0 1 9 true (λ k. false) "c1" (database active []))
evaluate_campaign-Reminded_example =
    evaluate_campaign-Reminded floats true (database active []) machine 0 1 9 (λ k. false) "c1"

evaluate_campaign-Moves_example :
    (c : Campaign floats) × (find_campaign floats "c1" (database active []).campaigns ≡ some c)
    × Moves floats machine 0 1 9 true c result
evaluate_campaign-Moves_example =
    evaluate_campaign-Moves floats machine 0 1 9 true (λ k. false) "c1" (database active [])
      (evaluated (("c1", "acme/shop") ∷ [])) result first_evaluation

evaluate_campaign-live_example :
    ((evaluated []).jobs ≡ (database active waiting).jobs)
    × ((evaluated []).reminders ≡ (database active waiting).reminders)
evaluate_campaign-live_example =
    evaluate_campaign-live floats machine 0 1 9 true (λ k. false) "c1" "acme/shop"
      (database active waiting) (evaluated []) (done result) (campaign active) refl refl refl
      later_evaluation

evaluate_campaign_inline-SameRows_example :
    (out : Database floats × Option Trigger) × (evaluate_campaign_inline floats machine 0 1 9 "c1"
        (database active [])
      ≡ success out)
    × SameRows floats machine 0 1 9 true (evaluated (("c1", "acme/shop") ∷ [])) result out
evaluate_campaign_inline-SameRows_example =
    evaluate_campaign_inline-SameRows floats machine 0 1 9 true "c1" (database active [])
      (evaluated (("c1", "acme/shop") ∷ [])) result first_evaluation

evaluate_campaign-ready_example :
    (db2 : Database floats) × (db3 : Database floats) × (r : JobResult floats) × (r2 : JobResult
      floats)
    × (evaluate_campaign floats machine 0 1 9 true (λ k. false) "c1" (database active [])
        ≡ some (db2, r))
    × (find_campaign floats "c1" db2.campaigns
        ≡ some (in_state floats decaying 9 (campaign active)))
    × (evaluate_campaign floats machine 600 601 20 false (λ k. k == "c2") "c1" db2 ≡ some (db3, r2))
    × (find_campaign floats "c1" db3.campaigns
        ≡ some (in_state floats ready_to_remove 20 (campaign active)))
unfolding sample allows_start_decay allows_mark_ready ratio init
evaluate_campaign-ready_example =
    evaluate_campaign-ready floats machine 0 1 600 601 9 20 true false (λ k. false) (λ k. k == "c2")
      "c1" (database active []) (campaign active) refl refl refl refl refl refl refl refl refl
