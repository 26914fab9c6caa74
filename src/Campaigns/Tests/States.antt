-- ===== src/Campaigns/Tests/States.antt =====
-- Witnesses for the state machine.
use living_api_contract_guar.Common.{none, List, [], ◌∷◌, ◌≡◌, refl, if◌then◌else◌, some}
use living_api_contract_guar.Common.Int.{ℤ, pos}
use living_api_contract_guar.Campaigns.StateMachine.{
  CampaignFsm, is_locked, stamp, try_triggers, next_trigger, run_before, evaluate, mark_ready,
  draft, active, decaying, completed, Trigger, activate, start_decay, complete, call, after_fire,
  guard, allows_start_decay, allows_mark_ready, ratio,
}
use living_api_contract_guar.Campaigns.StateMachine.Paths.{
  diagram, expected, call-diagram, take, triggers_of, only_path_to_completed,
}
use living_api_contract_guar.Campaigns.StateMachine.Evaluate.{
  automatic, evaluate-automatic, evaluate_locked,
}
use living_api_contract_guar.Campaigns.Tests.Data.{machine, floats, fsm}

call-diagram_example :
    call floats machine (pos 7) activate (fsm draft)
    ≡ expected floats machine (pos 7) activate (fsm draft) (diagram draft activate)
call-diagram_example = call-diagram floats machine (pos 7) activate (fsm draft)

evaluate-automatic_example : evaluate floats machine 0 1 (pos 3) (fsm active) ≡ (
    if is_locked floats 0 none
    then (fsm active, none)
    else automatic floats machine 0 1 (record (fsm active) { current_usage = pos 3 }) active)
evaluate-automatic_example = evaluate-automatic floats machine 0 1 (pos 3) (fsm active)

abbrev whole_path : List (Trigger × ℤ)
whole_path =
    (activate, pos 100) ∷ (start_decay, pos 0) ∷ (mark_ready, pos 0) ∷ (complete, pos 0) ∷ []

only_path_to_completed_example :
    triggers_of floats machine whole_path ≡ activate ∷ start_decay ∷ mark_ready ∷ complete ∷ []
unfolding take call after_fire guard allows_start_decay allows_mark_ready ratio
only_path_to_completed_example =
    only_path_to_completed floats machine whole_path (fsm draft) (fsm completed) refl refl refl

abbrev just_decaying : CampaignFsm floats
just_decaying = record (fsm decaying) { current_usage = pos 3; last_transition_at = some 1 }

first_evaluation :
    evaluate floats machine 0 1 (pos 3) (fsm active) ≡ (just_decaying, some start_decay)
unfolding evaluate is_locked stamp try_triggers next_trigger call after_fire guard
    allows_start_decay ratio run_before
first_evaluation = refl

evaluate_locked_example : evaluate floats machine 2 3 (pos 0) just_decaying ≡ (just_decaying, none)
evaluate_locked_example =
    evaluate_locked floats machine 0 1 2 3 (pos 3) (pos 0) (fsm active) just_decaying start_decay
      first_evaluation refl
