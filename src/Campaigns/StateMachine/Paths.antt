-- ===== src/Campaigns/StateMachine/Paths.antt =====
-- The states a campaign goes through: the diagram of the module's docstring, against the calls.
use living_api_contract_guar.Common.{
  Bool, true, false, Option, none, some, List, [], ◌∷◌, ◌≡◌, arith, select, inl, inr, Option-cases,
  if◌then◌else◌,
}
use living_api_contract_guar.Common.Int.{ℤ}
use living_api_contract_guar.Campaigns.StateMachine.{
  State, draft, active, decaying, ready_to_remove, completed, aborted, Trigger, activate,
  start_decay, mark_ready, complete, abort, transitions, outcome, applies, Machine, Floats,
  CampaignFsm, guard, allows_start_decay, allows_mark_ready, run_before, after_fire, call,
}

-- The diagram: the state that a trigger leads to.
abbrev pub diagram : State → Trigger → Option State
diagram draft activate = some active
diagram active start_decay = some decaying
diagram decaying mark_ready = some ready_to_remove
diagram ready_to_remove complete = some completed
diagram draft abort = some aborted
diagram active abort = some aborted
diagram decaying abort = some aborted
diagram ready_to_remove abort = some aborted
diagram _ _ = none

module _ (floats : Floats) (machine : Machine) where
  -- The guard that stands on a trigger.
  abbrev pub permits : CampaignFsm floats → Trigger → Bool
  permits fsm start_decay = allows_start_decay floats fsm
  permits fsm mark_ready = allows_mark_ready floats fsm
  permits fsm _ = true

  -- What a call does, from the diagram: MachineError off the diagram, False when the guard
  -- refuses, and otherwise the state of the diagram, with the peak usage recorded by `activate`.
  abbrev pub expected :
      ℤ → Trigger → CampaignFsm floats → Option State → Option (CampaignFsm floats × Bool)
  expected peak_usage t fsm none = none
  expected peak_usage activate fsm (some s) =
      some (record fsm { peak_usage = peak_usage; state = s }, true)
  expected peak_usage t fsm (some s) =
      if permits fsm t then some (record fsm { state = s }, true) else some (fsm, false)

  outcome-expected :
      (peak_usage : ℤ) (t : Trigger) (s : State) (fsm : CampaignFsm floats)
      → after_fire floats peak_usage fsm
          (outcome (guard floats fsm) (select (applies s t) transitions))
        ≡ expected peak_usage t fsm (diagram s t)
  unfolding after_fire guard run_before
  outcome-expected peak_usage t s fsm = ground arith

  -- A call of a trigger raises MachineError exactly off the diagram of states; on it, the call
  -- returns False and changes nothing when the trigger's guard refuses, and otherwise enters the
  -- diagram's state, where `activate` also records the peak usage it was given.
  pub call-diagram :
      (peak_usage : ℤ) (t : Trigger) (fsm : CampaignFsm floats)
      → call floats machine peak_usage t fsm ≡ expected peak_usage t fsm (diagram fsm.state t)
  unfolding call
  call-diagram peak_usage t fsm =
      rw (machine.documented transitions (guard floats fsm) fsm.state t)
        (outcome-expected peak_usage t fsm.state fsm)

  -- Calls that all succeed, one after the other, each with the peak usage given to it.
  unfoldable pub take : List (Trigger × ℤ) → CampaignFsm floats → Option (CampaignFsm floats)
  take [] fsm = some fsm
  take ((t, peak_usage) ∷ ts) fsm = elim (call floats machine peak_usage t fsm) [
    | none ↦ none
    | some (fsm2, true) ↦ take ts fsm2
    | some (fsm2, false) ↦ none
  ]

  abbrev pub triggers_of : List (Trigger × ℤ) → List Trigger
  triggers_of [] = []
  triggers_of ((t, peak_usage) ∷ ts) = t ∷ triggers_of ts

  abbrev walk : State → List Trigger → Option State
  walk s [] = some s
  walk s (t ∷ ts) = elim (diagram s t) [ none ↦ none | some s2 ↦ walk s2 ts ]

  expected_state :
      (peak_usage : ℤ) (t : Trigger) (fsm fsm2 : CampaignFsm floats) (o : Option State)
      → expected peak_usage t fsm o ≡ some (fsm2, true)
      → o ≡ some fsm2.state
  expected_state peak_usage t fsm fsm2 o h = ground arith

  walk_of_take :
      (ts : List (Trigger × ℤ)) (fsm fsm2 : CampaignFsm floats)
      → take ts fsm ≡ some fsm2
      → walk fsm.state (triggers_of ts) ≡ some fsm2.state
  unfolding take
  walk_of_take [] fsm fsm2 h = ground arith
  walk_of_take ((t, peak_usage) ∷ ts) fsm fsm2 h =
      elim (Option-cases (call floats machine peak_usage t fsm)) [
        | inl n ↦ absurd cc
        | inr ((fsm3, true), q) ↦
            let at : diagram fsm.state t ≡ some fsm3.state =
              expected_state peak_usage t fsm fsm3 (diagram fsm.state t)
                (rw (← call-diagram peak_usage t fsm) q) in
            rw (walk, at) (walk_of_take ts fsm3 fsm2 (rw (take, q) at h))
        | inr ((fsm3, false), q) ↦ absurd cc
      ]

  abbrev remaining : State → Option (List Trigger)
  remaining draft = some (activate ∷ start_decay ∷ mark_ready ∷ complete ∷ [])
  remaining active = some (start_decay ∷ mark_ready ∷ complete ∷ [])
  remaining decaying = some (mark_ready ∷ complete ∷ [])
  remaining ready_to_remove = some (complete ∷ [])
  remaining completed = some []
  remaining aborted = none

  walk-remaining :
      (s : State) (ts : List Trigger) → walk s ts ≡ some completed → remaining s ≡ some ts
  walk-remaining s [] h = ground arith
  walk-remaining s (t ∷ ts) h = ground (
    arith,
    walk-remaining active ts,
    walk-remaining decaying ts,
    walk-remaining ready_to_remove ts,
    walk-remaining completed ts,
    walk-remaining aborted ts,
  )

  -- A campaign that starts in draft and, by calls that all succeed, comes to completed was
  -- activated, started to decay, was marked ready and was completed, in this order and nothing else.
  pub only_path_to_completed :
      (ts : List (Trigger × ℤ)) (fsm fsm2 : CampaignFsm floats)
      → fsm.state ≡ draft
      → take ts fsm ≡ some fsm2
      → fsm2.state ≡ completed
      → triggers_of ts ≡ activate ∷ start_decay ∷ mark_ready ∷ complete ∷ []
  only_path_to_completed ts fsm fsm2 h q k =
      let w = walk_of_take ts fsm fsm2 q in ground (arith, walk-remaining draft (triggers_of ts))
