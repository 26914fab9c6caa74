-- ===== src/Campaigns/StateMachine/Evaluate.antt =====
-- What `evaluate` does, once per state, and its lock.
use living_api_contract_guar.Common.{
  true, Option, none, some, [], ◌∷◌, ◌≡◌, refl, ap, arith, if◌then◌else◌,
}
use living_api_contract_guar.Common.Int.{ℤ, pos}
use living_api_contract_guar.Campaigns.StateMachine.{
  State, active, decaying, ready_to_remove, Trigger, start_decay, mark_ready, Machine, Floats,
  CampaignFsm, allows_start_decay, allows_mark_ready, next_trigger, try_triggers, is_locked, stamp,
  evaluate,
}
use living_api_contract_guar.Campaigns.StateMachine.Paths.{call-diagram}

module _ (floats : Floats) (machine : Machine) (now later : floats.Float) where
  -- The automatic transition of a campaign whose usage is recorded.
  abbrev pub automatic : CampaignFsm floats → State → CampaignFsm floats × Option Trigger
  automatic fsm active =
      if allows_start_decay floats fsm
      then (record fsm { state = decaying; last_transition_at = some later }, some start_decay)
      else (fsm, none)
  automatic fsm decaying =
      if allows_mark_ready floats fsm
      then (
        record fsm { state = ready_to_remove; last_transition_at = some later },
        some mark_ready,
      )
      else (fsm, none)
  automatic fsm _ = (fsm, none)

  loop_automatic :
      (fsm : CampaignFsm floats) (s : State)
      → fsm.state ≡ s
      → stamp floats later (try_triggers floats machine (start_decay ∷ mark_ready ∷ []) fsm)
        ≡ automatic fsm s
  unfolding try_triggers next_trigger stamp
  loop_automatic fsm s h = ground (
    arith,
    call-diagram floats machine (pos 0) start_decay fsm,
    call-diagram floats machine (pos 0) mark_ready fsm,
  )

  -- Unless it is locked, `evaluate` records the usage and takes at most one step: an active
  -- campaign whose guard for start_decay holds starts to decay, a decaying one whose guard for
  -- mark_ready holds becomes ready to remove, each with the time of the transition, and any other
  -- keeps its state and fires nothing. Locked, it changes nothing and fires nothing.
  pub evaluate-automatic :
      (usage : ℤ) (fsm : CampaignFsm floats)
      → evaluate floats machine now later usage fsm ≡ (
          if is_locked floats now fsm.last_transition_at
          then (fsm, none)
          else automatic (record fsm { current_usage = usage }) fsm.state)
  unfolding evaluate
  evaluate-automatic usage fsm =
      ap (λ r. if is_locked floats now fsm.last_transition_at then (fsm, none) else r)
        (loop_automatic (record fsm { current_usage = usage }) fsm.state refl)

-- After an evaluation that fired, another one within five seconds of the transition changes
-- nothing and fires nothing, whatever the usage.
pub evaluate_locked :
    (floats : Floats) (machine : Machine) (now later now2 later2 : floats.Float) (usage usage2 : ℤ)
    (fsm fsm2 : CampaignFsm floats) (t : Trigger)
    → evaluate floats machine now later usage fsm ≡ (fsm2, some t)
    → floats.lt (floats.sub now2 later) (floats.literal "5.0") ≡ true
    → evaluate floats machine now2 later2 usage2 fsm2 ≡ (fsm2, none)
unfolding is_locked
evaluate_locked floats machine now later now2 later2 usage usage2 fsm fsm2 t fired soon = ground (
  arith,
  evaluate-automatic floats machine now later usage fsm,
  evaluate-automatic floats machine now2 later2 usage2 fsm2,
  fired,
  soon,
)
